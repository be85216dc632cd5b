-- ===== src/Server/Cli.antt =====
-- The commands of server/src/main.rs, from the parsed arguments on. Reading the file of the database
-- URL, connecting, migrating, binding the listeners and building the engine may fail: how they end
-- is an argument. Serving itself, logging and signals are not modelled.
pub mod Gates
pub mod Rotation
use rs_console.Common.{
  ℕ, ◌+◌, Bool, true, false, not, ◌&&◌, Option, none, some, [], ltb, leb, if◌then◌else◌, Text,
  bytes, ◌==◌, nat_eq, text_eq, bool_eq, length, Result, ◌>>=◌, ok, err,
}
use rs_console.Policy.Ids.{UserId, new_id}
use rs_console.Auth.Types.{
  Time, Uuid, SecretToken, CapabilityPurpose, Capability, AuthError, AuthConfig, minutes,
}
use rs_console.Auth.Tokens.{Cryptography, hash}
use rs_console.Auth.Trim.{trim}
use rs_console.Auth.Interfaces.{Call, AuthStore}
use rs_console.Auth.Service.Accounts.{seed_operator, rotate_all}

-- An `i64`: at least zero, or below it (`negsuc n` is `-1 - n`).
pub data ℤ : Type 0 where
  pos negsuc : ℕ → ℤ

pub record ServeArgs : Type 0 where
  pub public_listen : Text
  pub private_listen : Text
  pub rp_id : Text
  pub browser_origin : Text
  pub environment : Text
  pub database_max_connections : ℕ

pub record BreakGlassArgs : Type 0 where
  pub enabled : Bool
  pub operator_user_id : Text
  pub revoke_credential : Uuid
  pub reason : Text
  pub window_minutes : ℤ
  pub confirm : Text

pub record SeedOperatorArgs : Type 0 where
  pub enabled : Bool
  pub operator_user_id : Text
  pub email : Text
  pub display_name : Text
  pub confirm : Text

pub record RotateAuthEpochArgs : Type 0 where
  pub enabled : Bool
  pub reason : Text
  pub confirm : Text

pub data Command : Type 0 where
  serve_command : ServeArgs → Command
  break_glass_command : BreakGlassArgs → Command
  seed_operator_command : SeedOperatorArgs → Command
  rotate_auth_epoch_command : RotateAuthEpochArgs → Command

-- The errors that a command ends with.
pub data CliError : Type 0 where
  url_file_unreadable url_file_empty : CliError
  unknown_environment same_listeners : CliError
  not_confirmed short_reason window_out_of_range invalid_operator : CliError
  not_connected not_migrated no_engine : CliError
  refused_by : AuthError → CliError

-- How the calls of the outside end: whether the database is reached, its migrations run and the
-- engine of the given configuration is built. A connection is made with a number of connections at most.
pub record Outside : Type 0 where
  pub connects : ℕ → Bool
  pub migrates : Bool
  pub builds_engine : Text → Text → Bool → Bool

-- `return Err(..)` unless a condition holds.
abbrev pub require : CliError → Bool → Result CliError (Unit {0})
require e true = ok tt
require e false = err e

-- `?` on an error of auth.
abbrev pub from_auth {ℓ} : {A : Type ℓ} → Result AuthError A → Result CliError A
from_auth (ok a) = ok a
from_auth (err e) = err (refused_by e)

-- `UserId::new(..).map_err(|_| "invalid operator user ID")`.
abbrev pub operator_id : Text → Result CliError UserId
operator_id text = elim (new_id text) [ ok id ↦ ok id | err _ ↦ err invalid_operator ]

-- The length of the registration window, from 1 to 15 minutes.
unfoldable pub window_of : ℤ → Result CliError ℕ
window_of (pos n) = if leb 1 n && leb n 15 then ok n else err window_out_of_range
window_of (negsuc n) = err window_out_of_range

-- The checks of `break_glass` before it connects: the operator and the window.
unfoldable pub break_glass_gates : BreakGlassArgs → Result CliError (UserId × ℕ)
unfolding window_of
break_glass_gates args = do
  _ ← require not_confirmed (args.enabled && args.confirm == bytes "INVALIDATE OPERATOR AUTH")
  _ ← require short_reason (not (ltb (length (trim args.reason)) 12))
  window ← window_of args.window_minutes
  id ← operator_id args.operator_user_id
  ok (id, window)

-- The capability that opens the window.
abbrev pub window_capability : Cryptography → Uuid → UserId → SecretToken → Time → ℕ → Capability
window_capability c id user_id token now window = record {
  id = id;
  user_id = user_id;
  purpose = CapabilityPurpose.operator_recovery;
  token_hash = hash c token;
  expires_at = now + minutes window;
}

-- The relying party and the origin of production, which two commands build their engine for.
abbrev pub builds_production : Outside → Bool
builds_production outside =
    outside.builds_engine (bytes "ricardosaad.com") (bytes "https://ricardosaad.com") true

-- Whether an environment is that of production.
unfoldable pub production_of : Text → Result CliError Bool
production_of environment =
    if environment == bytes "production"
    then ok true
    else if environment == bytes "development"
    then ok false
    else err unknown_environment

-- The checks of `serve` before it connects: whether it is in production.
unfoldable pub serve_gates : ServeArgs → Result CliError Bool
unfolding production_of
serve_gates args = do
  production ← production_of args.environment
  _ ← require same_listeners (not (args.public_listen == args.private_listen))
  ok production

-- What `serve` starts its routers with: an engine for production or not, and the browser's origin.
pub record ServeState : Type 0 where
  pub production : Bool
  pub origin : Text

-- `serve`, up to the listeners.
unfoldable pub serve_state : Outside → ServeArgs → Result CliError ServeState
unfolding serve_gates
serve_state outside args = do
  production ← serve_gates args
  _ ← require not_connected (outside.connects args.database_max_connections)
  _ ← require not_migrated outside.migrates
  _ ← require no_engine (outside.builds_engine args.rp_id args.browser_origin production)
  ok (record { production = production; origin = args.browser_origin })

module _ {S : Type 0} (c : Cryptography) (stores : AuthStore S) (config : AuthConfig)
    (outside : Outside) where
  -- A call of the store after the checks.
  abbrev pub then_call :
      {A : Type 0}
      → Result CliError A
      → (A → Call S (Unit {0}))
      → S
      → S × Result CliError (Unit {0})
  then_call (err e) call s = (s, err e)
  then_call (ok a) call s = (let (s', r) = call a s in (s', from_auth r))

  -- `break_glass`.
  unfoldable pub break_glass_run :
      BreakGlassArgs → Uuid → SecretToken → Time → S → S × Result CliError (Unit {0})
  unfolding break_glass_gates
  break_glass_run args id token now =
      then_call
        (do
          gates ← break_glass_gates args
          _ ← require not_connected (outside.connects 2)
          ok gates)
        (λ gates.
          stores.break_glass args.revoke_credential
            (window_capability c id gates.0 token now gates.1) now (trim args.reason))

  -- `seed_operator`.
  unfoldable pub seed_operator_run :
      SeedOperatorArgs → Uuid → Time → S → S × Result CliError (Unit {0})
  seed_operator_run args handle now =
      then_call
        (do
          _ ← require not_confirmed (args.enabled && args.confirm == bytes "SEED FIRST OPERATOR")
          id ← operator_id args.operator_user_id
          _ ← require not_connected (outside.connects 2)
          _ ← require not_migrated outside.migrates
          _ ← require no_engine (builds_production outside)
          ok id)
        (λ id. seed_operator c stores config handle id args.email args.display_name now)

  -- `rotate_auth_epoch`.
  unfoldable pub rotate_auth_epoch_run :
      RotateAuthEpochArgs → Time → S → S × Result CliError (Unit {0})
  rotate_auth_epoch_run args now =
      then_call
        (do
          _ ← require not_confirmed (args.enabled && args.confirm == bytes "ROTATE ALL AUTH EPOCHS")
          _ ← require not_connected (outside.connects 2)
          require no_engine (builds_production outside))
        (λ _ s.
          (let (s', r) = rotate_all c stores config args.reason now s in
            (s', (elim r [ ok users ↦ ok tt | err e ↦ err e ]))))

  -- The command of `main`.
  unfoldable pub run_command :
      Command → Uuid → SecretToken → Time → S → S × Result CliError (Unit {0})
  unfolding break_glass_run seed_operator_run rotate_auth_epoch_run serve_state
  run_command (serve_command args) id token now s = (s, (do _ ← serve_state outside args; ok tt))
  run_command (break_glass_command args) id token now s = break_glass_run args id token now s
  run_command (seed_operator_command args) id token now s = seed_operator_run args id now s
  run_command (rotate_auth_epoch_command args) id token now s = rotate_auth_epoch_run args now s

  -- `main`, where the file of the database URL was read or not.
  unfoldable pub main :
      Option Text → Command → Uuid → SecretToken → Time → S → S × Result CliError (Unit {0})
  unfolding run_command
  main none command id token now s = (s, err url_file_unreadable)
  main (some url) command id token now s =
      if trim url == [] then (s, err url_file_empty) else run_command command id token now s
