-- ===== src/Server/Cli/Gates.antt =====
-- What the commands of server/src/main.rs check before they change anything.
use rs_console.Common.{
  ℕ, ◌+◌, ◌≤◌, ◌≡◌, refl, ap, ◌∙◌, inl, inr, Bool, true, false, not, ◌&&◌, Option, none, some, [],
  arith, ltb, Text, bytes, ◌==◌, nat_eq, text_eq, bool_eq, Bool-cases, length, Result, >>=-eq-ok,
  Result-cases, ok, err,
}
use rs_console.Auth.Types.{Time, Uuid, SecretToken, Capability, AuthConfig, minutes}
use rs_console.Auth.Tokens.{Cryptography}
use rs_console.Auth.Trim.{trim}
use rs_console.Auth.Interfaces.{Call, AuthStore}
use rs_console.Server.Cli.{
  ℤ, BreakGlassArgs, Command, CliError, Outside, require, operator_id, window_of, break_glass_gates,
  window_capability, then_call, break_glass_run, seed_operator_run, rotate_auth_epoch_run,
  run_command, main, pos, negsuc, serve_command, break_glass_command, seed_operator_command,
  rotate_auth_epoch_command, url_file_unreadable, url_file_empty, not_confirmed, short_reason,
  not_connected,
}
use rs_console.Policy.Ids.{UserId, new_id}

require-ok : (e : CliError) (b : Bool) {u : Unit {0}} → require e b ≡ ok u → b ≡ true
require-ok e true h = refl
require-ok e false h = cc

-- What the arguments of a break-glass recovery that reaches the store satisfy.
abbrev pub IsOpened : BreakGlassArgs → UserId → ℕ → Type 0
IsOpened args user_id window =
    (args.enabled ≡ true)
    × (args.confirm ≡ bytes "INVALIDATE OPERATOR AUTH")
    × (12 ≤ length (trim args.reason))
    × (args.window_minutes ≡ pos window)
    × (1 ≤ window)
    × (window ≤ 15)
    × (new_id args.operator_user_id ≡ ok user_id)

window_of-bounds :
    (z : ℤ) (window : ℕ) → window_of z ≡ ok window → (z ≡ pos window) × (1 ≤ window) × (window ≤ 15)
unfolding window_of
window_of-bounds (pos n) window h =
    let same : n ≡ window = ground arith in (ap pos same, ground arith, ground arith)
window_of-bounds (negsuc n) window h = cc

operator_id-new_id : (text : Text) (id : UserId) → operator_id text ≡ ok id → new_id text ≡ ok id
operator_id-new_id text id h = elim (Result-cases (new_id text)) [
  | inl (found, e) ↦ ground arith
  | inr (x, e) ↦ absurd (ground arith)
]

break_glass_gates-IsOpened :
    (args : BreakGlassArgs) (user_id : UserId) (window : ℕ)
    → break_glass_gates args ≡ ok (user_id, window)
    → IsOpened args user_id window
unfolding break_glass_gates
break_glass_gates-IsOpened args user_id window h =
    let confirmed = args.enabled && args.confirm == bytes "INVALIDATE OPERATOR AUTH" in
    let reasoned = not (ltb (length (trim args.reason)) 12) in
    let (_, gate, h1) = >>=-eq-ok (require not_confirmed confirmed) _ h in
    let (_, long, h2) = >>=-eq-ok (require short_reason reasoned) _ h1 in
    let (minutes_, windowed, h3) = >>=-eq-ok (window_of args.window_minutes) _ h2 in
    let (id, named, h4) = >>=-eq-ok (operator_id args.operator_user_id) _ h3 in
    let open_ = require-ok not_confirmed confirmed gate in
    let reason_ = require-ok short_reason reasoned long in
    let same_id : id ≡ user_id = ground arith in
    let same_window : minutes_ ≡ window = ground arith in
    let (is_pos, low, high) = window_of-bounds args.window_minutes minutes_ windowed in
    (
      ground arith,
      ground arith,
      ground arith,
      is_pos ∙ ap pos same_window,
      omega (arith),
      omega arith,
      operator_id-new_id args.operator_user_id id named ∙ ap ok same_id,
    )

-- Whether a command was enabled and confirmed in its own words; serving needs neither.
unfoldable pub is_confirmed : Command → Bool
is_confirmed (serve_command args) = true
is_confirmed (break_glass_command args) =
    args.enabled && args.confirm == bytes "INVALIDATE OPERATOR AUTH"
is_confirmed (seed_operator_command args) =
    args.enabled && args.confirm == bytes "SEED FIRST OPERATOR"
is_confirmed (rotate_auth_epoch_command args) =
    args.enabled && args.confirm == bytes "ROTATE ALL AUTH EPOCHS"

module _ {S : Type 0} (c : Cryptography) (stores : AuthStore S) (config : AuthConfig)
    (outside : Outside) where
  then_call-ok :
      {A : Type 0} (gates : Result CliError A) (call : A → Call S (Unit {0})) (s : S)
      → (then_call c stores config outside gates call s).1 ≡ ok tt
      → (a : A) × (gates ≡ ok a)
        × ((call a s).1 ≡ ok tt)
        × ((then_call c stores config outside gates call s).0 ≡ (call a s).0)
  then_call-ok (ok a) call s h = elim (Result-cases (call a s).1) [
    | inl (u, e) ↦ (a, refl, e, refl)
    | inr (x, e) ↦ absurd (ground arith)
  ]
  then_call-ok (err x) call s h = cc

  -- A break-glass recovery that succeeds was enabled and confirmed, with a trimmed reason of at least
  -- 12 bytes, a valid operator's id and a window of 1 to 15 minutes; the store has then made a
  -- break-glass recovery of that operator with a capability that ends with that window.
  pub break_glass_run-IsOpened :
      (args : BreakGlassArgs) (id : Uuid) (token : SecretToken) (now : Time) (s : S)
      → (break_glass_run c stores config outside args id token now s).1 ≡ ok tt
      → (user_id : UserId) × (window : ℕ) × (capability : Capability) × IsOpened args user_id window
        × (capability.user_id ≡ user_id)
        × (capability.expires_at ≡ now + minutes window)
        × ((stores.break_glass args.revoke_credential capability now (trim args.reason) s).1
            ≡ ok tt)
        × ((break_glass_run c stores config outside args id token now s).0
            ≡ (stores.break_glass args.revoke_credential capability now (trim args.reason) s).0)
  unfolding break_glass_run
  break_glass_run-IsOpened args id token now s h =
      let (gates, passed, called, state) = then_call-ok _ _ s h in
      let (opened, gated, h1) = >>=-eq-ok (break_glass_gates args) _ passed in
      let (_, connected, h2) = >>=-eq-ok (require not_connected (outside.connects 2)) _ h1 in
      let same : opened ≡ gates = ground arith in
      (
        gates.0,
        gates.1,
        window_capability c id gates.0 token now gates.1,
        break_glass_gates-IsOpened args gates.0 gates.1 (gated ∙ ap ok same),
        refl,
        refl,
        called,
        state,
      )

  run_command_unconfirmed :
      (command : Command) (id : Uuid) (token : SecretToken) (now : Time) (s : S)
      → is_confirmed command ≡ false
      → run_command c stores config outside command id token now s ≡ (s, err not_confirmed)
  unfolding run_command is_confirmed break_glass_run break_glass_gates seed_operator_run
      rotate_auth_epoch_run
  run_command_unconfirmed (serve_command args) id token now s h = cc
  run_command_unconfirmed (break_glass_command args) id token now s h = rw h refl
  run_command_unconfirmed (seed_operator_command args) id token now s h = rw h refl
  run_command_unconfirmed (rotate_auth_epoch_command args) id token now s h = rw h refl

  -- A command that is not enabled, or not confirmed in its own words, fails and leaves the store as
  -- it was, whatever else its arguments are.
  pub main_unconfirmed :
      (url : Option Text) (command : Command) (id : Uuid) (token : SecretToken) (now : Time) (s : S)
      → is_confirmed command ≡ false
      → (x : CliError) × (main c stores config outside url command id token now s ≡ (s, err x))
  unfolding main
  main_unconfirmed none command id token now s h = (url_file_unreadable, refl)
  main_unconfirmed (some url) command id token now s h = elim (Bool-cases (trim url == [])) [
    | inl e ↦ (url_file_empty, rw e refl)
    | inr e ↦ (not_confirmed, rw e (run_command_unconfirmed command id token now s h))
  ]
