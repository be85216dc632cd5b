-- ===== src/Server/Webauthn/Engine.antt =====
-- `impl CeremonyEngine for WebauthnEngine` of server/src/webauthn.rs.
use rs_console.Common.{
  true, Option, none, some, List, [], ◌∷◌, map, Text, bytes, ◌==◌, nat_eq, text_eq, bool_eq, find,
  Result, ◌>>=◌, ok_or, ok,
}
use rs_console.Policy.Canonical.{Json, bool, string, object}
use rs_console.Auth.Types.{
  Uuid, User, StoredCredential, VerifiedCredential, AuthenticationVerification, AuthError,
  invalid_input, invalid_state, verification_failed, store_failed,
}
use rs_console.Auth.Interfaces.{CeremonyEngine}
use rs_console.Server.Webauthn.{Webauthn}
use rs_console.Server.Webauthn.Fields.{set_field, change_at}

-- The two entries that make a passkey discoverable.
unfoldable pub require_resident : Json → Option Json
unfolding set_field
require_resident (object fs) = some (
    object (
      set_field (bytes "requireResidentKey") (bool true)
        (set_field (bytes "residentKey") (string (bytes "required")) fs)))
require_resident value = none

abbrev pub selection : List Text
selection = bytes "publicKey" ∷ bytes "authenticatorSelection" ∷ []

-- `(!exclude.is_empty()).then_some(exclude)`.
abbrev pub then_some : List Text → Option (List Text)
then_some [] = none
then_some (id ∷ ids) = some (id ∷ ids)

module _ {P C R D A RC PC AR : Type 0} (w : Webauthn P C R D A RC PC AR) where
  -- `stored_passkey`.
  unfoldable pub stored_passkey : StoredCredential → Result AuthError P
  stored_passkey credential = ok_or store_failed (w.passkey_of credential.public_data)

  unfoldable pub stored_passkeys : List StoredCredential → Result AuthError (List P)
  unfolding stored_passkey
  stored_passkeys [] = ok []
  stored_passkeys (credential ∷ credentials) = do
    passkey ← stored_passkey credential
    passkeys ← stored_passkeys credentials
    ok (passkey ∷ passkeys)

  -- `start_registration`.
  unfoldable pub engine_start_registration :
      User → List StoredCredential → Result AuthError (Json × Json)
  unfolding stored_passkeys change_at require_resident
  engine_start_registration user credentials = do
    passkeys ← stored_passkeys credentials
    (challenge, state) ← ok_or verification_failed (
        w.start_passkey_registration user.webauthn_handle user.email user.display_name
          (then_some (map w.cred_id passkeys)))
    value ← ok_or store_failed (w.challenge_value challenge)
    required ← ok_or store_failed (change_at selection require_resident value)
    stored ← ok_or store_failed (w.registration_value state)
    ok (required, stored)

  -- `finish_registration`.
  unfoldable pub engine_finish_registration : Json → Json → Result AuthError VerifiedCredential
  engine_finish_registration response state = do
    credential ← ok_or invalid_input (w.register_credential_of response)
    registration ← ok_or invalid_state (w.registration_of state)
    passkey ← ok_or verification_failed (w.finish_passkey_registration credential registration)
    public_data ← ok_or store_failed (w.passkey_value passkey)
    ok (record { credential_id = w.cred_id passkey; public_data = public_data })

  -- `start_authentication`.
  unfoldable pub engine_start_authentication : Result AuthError (Json × Json)
  engine_start_authentication = do
    (challenge, state) ← ok_or verification_failed w.start_discoverable_authentication
    value ← ok_or store_failed (w.request_value challenge)
    stored ← ok_or store_failed (w.authentication_value state)
    ok (value, stored)

  -- `authentication_user_handle`.
  unfoldable pub engine_user_handle : Json → Result AuthError Uuid
  engine_user_handle response = do
    credential ← ok_or invalid_input (w.credential_of response)
    ok_or verification_failed (w.identify_discoverable_authentication credential)

  -- `finish_authentication`.
  unfoldable pub engine_finish_authentication :
      Json → Json → List StoredCredential → Result AuthError AuthenticationVerification
  unfolding stored_passkeys
  engine_finish_authentication response state credentials = do
    credential ← ok_or invalid_input (w.credential_of response)
    authentication ← ok_or invalid_state (w.authentication_of state)
    passkeys ← stored_passkeys credentials
    result ←
        ok_or verification_failed
          (w.finish_discoverable_authentication credential authentication passkeys)
    passkey ←
        ok_or verification_failed
          (find (λ passkey. w.cred_id passkey == w.result_cred_id result) passkeys)
    updated ← ok_or verification_failed (w.update_credential passkey result)
    public_data ← ok_or store_failed (w.passkey_value updated)
    ok (record { credential_id = w.result_cred_id result; updated_public_data = public_data })

  abbrev pub webauthn_engine : CeremonyEngine
  webauthn_engine = record {
    start_registration = engine_start_registration;
    finish_registration = engine_finish_registration;
    start_authentication = engine_start_authentication;
    authentication_user_handle = engine_user_handle;
    finish_authentication = engine_finish_authentication;
  }
