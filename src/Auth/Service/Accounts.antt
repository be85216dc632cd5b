-- ===== src/Auth/Service/Accounts.antt =====
-- Users and their recovery: `request_recovery` to `rotate_all_auth_epochs` of `AuthService`.
use rs_console.Common.{
  ℕ, ◌+◌, Bool, true, false, not, ◌&&◌, Option, none, some, List, ltb, if◌then◌else◌, Text, bytes,
  ◌==◌, nat_eq, text_eq, bool_eq, length, Result, ok, err,
}
use rs_console.Policy.Canonical.{object, end}
use rs_console.Policy.Ids.{UserId}
use rs_console.Policy.Manifest.{address_eq, contains}
use rs_console.Auth.Types.{
  Time, Uuid, SecretToken, Role, User, CapabilityPurpose, Capability, RecoveryRequest, AuthError,
  AuthConfig, invalid_input, conflict,
}
use rs_console.Auth.Tokens.{Cryptography, hash}
use rs_console.Auth.Trim.{trim}
use rs_console.Auth.Interfaces.{Call, reading, lift, ◌>>=◌, AuthStore}

abbrev pub new_capability :
    Cryptography → AuthConfig → Uuid → UserId → CapabilityPurpose → SecretToken → Time → Capability
new_capability c config id user_id purpose token now = record {
  id = id;
  user_id = user_id;
  purpose = purpose;
  token_hash = hash c token;
  expires_at = now + config.capability_ttl;
}

abbrev pub new_user : UserId → Uuid → Text → Text → Role → User
new_user id handle email display_name role = record {
  id = id;
  webauthn_handle = handle;
  email = email;
  display_name = display_name;
  role = role;
  enabled = true;
  auth_epoch = 1;
}

-- The check of a new user's address and name, both trimmed.
unfoldable pub valid_contact : Text → Text → Bool
valid_contact email display_name =
    not (length email == 0) && contains b'@' email && not (length display_name == 0)

-- `is_some()` and `if .. { return Err(Conflict) }`.
abbrev pub refuse : Bool → Result AuthError (Unit {0})
refuse true = err conflict
refuse false = ok tt

abbrev pub is_some : {A : Type 0} → Option A → Bool
is_some none = false
is_some (some a) = true

module _ {S : Type 0} (c : Cryptography) (stores : AuthStore S) (config : AuthConfig) where
  -- `AuthService::request_recovery`.
  unfoldable pub request_recovery : UserId → Time → Call S RecoveryRequest
  request_recovery user_id now = stores.create_recovery user_id now

  -- `AuthService::pending_recoveries`.
  unfoldable pub list_recoveries : Call S (List RecoveryRequest)
  list_recoveries = reading stores.pending_recoveries

  -- `AuthService::approve_recovery`.
  unfoldable pub approve_pending_recovery : Uuid → UserId → Time → Call S (Unit {0})
  approve_pending_recovery recovery_id operator_id now =
      stores.approve_recovery recovery_id operator_id now

  -- `AuthService::issue_recovery_setup`.
  unfoldable pub issue_setup :
      Uuid → SecretToken → Uuid → UserId → UserId → Time → Call S SecretToken
  issue_setup id token recovery_id operator_id user_id now = do
    _ ←
        stores.issue_recovery_setup recovery_id
          (new_capability c config id user_id CapabilityPurpose.recovery_setup token now)
          operator_id now
    lift (ok token)

  -- `AuthService::approve_user_and_issue_setup`.
  unfoldable pub approve_user_and_issue_setup :
      Uuid → Uuid → SecretToken → UserId → UserId → Text → Text → Time → Call S SecretToken
  approve_user_and_issue_setup handle id token operator_id user_id email display_name now =
      if not (valid_contact (trim email) (trim display_name)) then lift (err invalid_input) else (do
        found ← reading (λ s. stores.user_by_id s user_id)
        _ ← lift (refuse (is_some found))
        _ ←
            stores.approve_user_with_setup
              (new_user user_id handle (trim email) (trim display_name) Role.user)
              (new_capability c config id user_id CapabilityPurpose.setup token now) operator_id now
        lift (ok token))

  -- `AuthService::seed_operator`.
  unfoldable pub seed_operator : Uuid → UserId → Text → Text → Time → Call S (Unit {0})
  seed_operator handle user_id email display_name now =
      if not (valid_contact (trim email) (trim display_name)) then lift (err invalid_input) else (do
        found ← reading (λ s. stores.user_by_id s user_id)
        _ ← lift (refuse (is_some found))
        exists ← reading stores.operator_exists
        _ ← lift (refuse exists)
        stores.insert_user (new_user user_id handle (trim email) (trim display_name) Role.operator)
            now
            (record {
              event_type = bytes "operator.seeded";
              actor_user_id = none;
              subject_user_id = some user_id;
              data_value = object end;
            }))

  -- `AuthService::rotate_all_auth_epochs`.
  unfoldable pub rotate_all : Text → Time → Call S ℕ
  rotate_all reason now =
      if ltb (length (trim reason)) 12
      then lift (err invalid_input)
      else stores.rotate_all_auth_epochs now (trim reason)
