-- ===== src/Auth/Service.antt =====
-- `AuthService` of auth/src/lib.rs, over the interfaces of a store and of a ceremony engine. Fresh
-- ids and tokens, which the source draws at random, are arguments.
pub mod Login
pub mod Accounts
pub mod Guards
use rs_console.Common.{
  ◌+◌, Option, none, some, [], if◌then◌else◌, Text, bytes, Result, ok_or, ok, err,
}
use rs_console.Policy.Canonical.{Json, string, object, end, field}
use rs_console.Policy.Ids.{UserId}
use rs_console.Auth.Types.{
  Time, Uuid, SecretToken, SecretHash, User, CeremonyKind, Ceremony, CapabilityPurpose, AuthError,
  AuthConfig, invalid_token, invalid_state, conflict,
}
use rs_console.Auth.Tokens.{Cryptography, hash}
use rs_console.Auth.Interfaces.{CeremonyEngine, Call, reading, lift, ◌>>=◌, AuthStore}

-- `.filter(|user| user.enabled)`.
abbrev pub enabled_user : Option User → Option User
enabled_user none = none
enabled_user (some user) = if user.enabled then some user else none

-- The text of `CeremonyKind` in JSON.
abbrev pub kind_text : CeremonyKind → Text
kind_text CeremonyKind.registration = bytes "registration"
kind_text CeremonyKind.authentication = bytes "authentication"
kind_text CeremonyKind.operator_bootstrap = bytes "operator_bootstrap"
kind_text CeremonyKind.operator_recovery = bytes "operator_recovery"

-- The ceremony that a start stores, valid for the time of a ceremony.
abbrev pub new_ceremony :
    AuthConfig → Uuid → CeremonyKind → Option UserId → Option SecretHash → Json → Time → Ceremony
new_ceremony config id kind user_id capability_hash state now = record {
  id = id;
  kind = kind;
  user_id = user_id;
  capability_hash = capability_hash;
  state = state;
  expires_at = now + config.ceremony_ttl;
}

-- Whom a bootstrap registers: the operator with an open recovery window, or else the operator
-- while no operator has a credential.
unfoldable pub bootstrap_user :
    Option (User × SecretHash)
    → Option User
    → Result AuthError (User × Option SecretHash × CeremonyKind)
bootstrap_user (some (user, capability_hash)) without_credential =
    ok (user, some capability_hash, CeremonyKind.operator_recovery)
bootstrap_user none none = err conflict
bootstrap_user none (some user) = ok (user, none, CeremonyKind.operator_bootstrap)

module _ {S : Type 0} (c : Cryptography) (stores : AuthStore S) (engine : CeremonyEngine)
    (config : AuthConfig) where
  -- `AuthService::start_setup_registration`.
  unfoldable pub start_setup_registration :
      Uuid → SecretToken → CapabilityPurpose → Time → Call S (Uuid × Json)
  start_setup_registration id token purpose now = do
    found ← reading (λ s. stores.capability s (hash c token) purpose now)
    capability ← lift (ok_or invalid_token found)
    found_user ← reading (λ s. stores.user_by_id s capability.user_id)
    user ← lift (ok_or invalid_token (enabled_user found_user))
    credentials ← reading (λ s. stores.credentials_for_user s user.id)
    (challenge, state) ← lift (engine.start_registration user credentials)
    _ ← stores.insert_ceremony (
        new_ceremony config id CeremonyKind.registration (some user.id) (some capability.token_hash)
          state now)
    lift (ok (id, challenge))

  -- `AuthService::start_operator_bootstrap`.
  unfoldable pub start_operator_bootstrap : Uuid → Time → Call S (Uuid × Json × CeremonyKind)
  start_operator_bootstrap id now = do
    window ← reading (λ s. stores.operator_recovery_window s now)
    operator_user ← elim window [
      | some _ ↦ lift (ok none)
      | none ↦ reading stores.operator_without_credential
    ]
    (user, capability_hash, kind) ← lift (bootstrap_user window operator_user)
    (challenge, state) ← lift (engine.start_registration user [])
    _ ←
        stores.insert_ceremony
          (new_ceremony config id kind (some user.id) capability_hash state now)
    lift (ok (id, challenge, kind))

  -- `AuthService::finish_registration`.
  unfoldable pub finish_registration : Uuid → CeremonyKind → Json → Time → Call S (Unit {0})
  finish_registration ceremony_id kind response now = do
    found ← reading (λ s. stores.ceremony s ceremony_id kind now)
    ceremony ← lift (ok_or invalid_state found)
    credential ← lift (engine.finish_registration response ceremony.state)
    user_id ← lift (ok_or invalid_state ceremony.user_id)
    stores.complete_registration ceremony.id ceremony.capability_hash credential now (record {
      event_type = bytes "passkey.registered";
      actor_user_id = some user_id;
      subject_user_id = some user_id;
      data_value = object (field (bytes "ceremony_kind") (string (kind_text kind)) end);
    })
