-- ===== src/Server/Webauthn/Passkeys.antt =====
-- Which passkeys server/src/webauthn.rs asks for and accepts.
use mathlib.Core.List.{Memᴰ}
use rs_console.Common.{
  ◌≡◌, refl, ap, ◌∙◌, subst, true, some, List, [], ◌∷◌, ◌++◌, map, arith, ℕ_discrete, bytes, ◌==◌,
  Text-discrete, nat_eq, text_eq, ==_iff, bool_eq, find, >>=-eq-ok, ok_or, ok_or-eq-ok, ok,
}
use rs_console.Policy.Canonical.{Json, null, bool, number, string, array, object}
use rs_console.Auth.Types.{
  User, StoredCredential, AuthenticationVerification, invalid_input, invalid_state,
  verification_failed, store_failed,
}
use rs_console.Server.Webauthn.{Webauthn}
use rs_console.Server.Webauthn.Fields.{
  set_field, member, pointer, change_at, get_field-set_field, get_field-set_field_other,
  pointer-member, pointer-change_at,
}
use rs_console.Common.Found.{find-Memᴰ}
use rs_console.Server.Webauthn.Engine.{
  require_resident, selection, then_some, stored_passkeys, engine_start_registration,
  engine_finish_authentication,
}

require_resident-object :
    (old made : Json)
    → require_resident old ≡ some made
    → (pointer (bytes "residentKey" ∷ []) made ≡ some (string (bytes "required")))
      × (pointer (bytes "requireResidentKey" ∷ []) made ≡ some (bool true))
unfolding require_resident pointer Text-discrete ℕ_discrete
require_resident-object (object fs) made h =
    let whole : made
        ≡ object (
            set_field (bytes "requireResidentKey") (bool true)
              (set_field (bytes "residentKey") (string (bytes "required")) fs)) =
      ground arith in
    let inner = set_field (bytes "residentKey") (string (bytes "required")) fs in
    let first : member (bytes "residentKey") made ≡ some (string (bytes "required")) =
      ap (member (bytes "residentKey")) whole
      ∙ get_field-set_field_other (bytes "residentKey") (bytes "requireResidentKey") (bool true)
          inner refl
      ∙ get_field-set_field (bytes "residentKey") (string (bytes "required")) fs in
    let second : member (bytes "requireResidentKey") made ≡ some (bool true) =
      ap (member (bytes "requireResidentKey")) whole
      ∙ get_field-set_field (bytes "requireResidentKey") (bool true) inner in
    (
      pointer-member (bytes "residentKey") [] made (string (bytes "required")) first,
      pointer-member (bytes "requireResidentKey") [] made (bool true) second,
    )
require_resident-object null made h = cc
require_resident-object (bool b) made h = cc
require_resident-object (number n) made h = cc
require_resident-object (string t) made h = cc
require_resident-object (array vs) made h = cc

change_at-resident :
    (value changed : Json)
    → change_at selection require_resident value ≡ some changed
    → (pointer (selection ++ (bytes "residentKey" ∷ [])) changed ≡ some (string (bytes "required")))
      × (pointer (selection ++ (bytes "requireResidentKey" ∷ [])) changed ≡ some (bool true))
change_at-resident value changed h =
    let (old, made, made_of, leads) =
      pointer-change_at selection (bytes "residentKey" ∷ []) require_resident value changed h in
    let (old', made', made_of', leads') =
      pointer-change_at selection (bytes "requireResidentKey" ∷ []) require_resident value changed
        h in
    (
      leads ∙ (require_resident-object old made made_of).0,
      leads' ∙ (require_resident-object old' made' made_of').1,
    )

module _ {P C R D A RC PC AR : Type 0} (w : Webauthn P C R D A RC PC AR) where
  -- A registration starts only with a challenge that asks for a discoverable passkey.
  pub start_registration-resident :
      (user : User) (credentials : List StoredCredential) (challenge state : Json)
      → engine_start_registration w user credentials ≡ ok (challenge, state)
      → (pointer (selection ++ (bytes "residentKey" ∷ [])) challenge
          ≡ some (string (bytes "required")))
        × (pointer (selection ++ (bytes "requireResidentKey" ∷ [])) challenge ≡ some (bool true))
  unfolding engine_start_registration
  start_registration-resident user credentials challenge state h =
      let (passkeys, _, h1) = >>=-eq-ok (stored_passkeys w credentials) _ h in
      let ((begun, kept), _, h2) =
        >>=-eq-ok
          (ok_or verification_failed (
            w.start_passkey_registration user.webauthn_handle user.email user.display_name
              (then_some (map w.cred_id passkeys))))
          _ h1 in
      let (value, _, h3) = >>=-eq-ok (ok_or store_failed (w.challenge_value begun)) _ h2 in
      let (required, changed, h4) =
        >>=-eq-ok (ok_or store_failed (change_at selection require_resident value)) _ h3 in
      let (stored, _, h5) = >>=-eq-ok (ok_or store_failed (w.registration_value kept)) _ h4 in
      let same : required ≡ challenge = ground arith in
      subst
        (λ c.
          (pointer (selection ++ (bytes "residentKey" ∷ [])) c ≡ some (string (bytes "required")))
          × (pointer (selection ++ (bytes "requireResidentKey" ∷ [])) c ≡ some (bool true)))
        same (change_at-resident value required (ok_or-eq-ok store_failed _ changed))

  -- An authentication is verified only for a passkey that one of the given credentials stores: the
  -- response and the state are read, the library accepts them with all the passkeys, and its result
  -- names the id of that passkey, which is the credential's id in the verification; the credential's
  -- new data is that passkey, updated with the result.
  pub finish_authentication-stored :
      (response state : Json) (credentials : List StoredCredential) (v : AuthenticationVerification)
      → engine_finish_authentication w response state credentials ≡ ok v
      → (credential : PC) × (authentication : A) × (passkeys : List P) × (passkey updated : P)
        × (result : AR) × (w.credential_of response ≡ some credential)
        × (w.authentication_of state ≡ some authentication)
        × (stored_passkeys w credentials ≡ ok passkeys)
        × (w.finish_discoverable_authentication credential authentication passkeys ≡ some result)
        × Memᴰ passkey passkeys
        × (w.cred_id passkey ≡ w.result_cred_id result)
        × (v.credential_id ≡ w.result_cred_id result)
        × (w.update_credential passkey result ≡ some updated)
        × (w.passkey_value updated ≡ some v.updated_public_data)
  unfolding engine_finish_authentication
  finish_authentication-stored response state credentials v h =
      let (credential, read_response, h1) =
        >>=-eq-ok (ok_or invalid_input (w.credential_of response)) _ h in
      let (authentication, read_state, h2) =
        >>=-eq-ok (ok_or invalid_state (w.authentication_of state)) _ h1 in
      let (passkeys, read, h3) = >>=-eq-ok (stored_passkeys w credentials) _ h2 in
      let (result, accepted, h4) =
        >>=-eq-ok
          (ok_or verification_failed
            (w.finish_discoverable_authentication credential authentication passkeys))
          _ h3 in
      let (passkey, named, h5) =
        >>=-eq-ok
          (ok_or verification_failed
            (find (λ passkey. w.cred_id passkey == w.result_cred_id result) passkeys))
          _ h4 in
      let (updated, changed, h6) =
        >>=-eq-ok (ok_or verification_failed (w.update_credential passkey result)) _ h5 in
      let (public_data, written, h7) =
        >>=-eq-ok (ok_or store_failed (w.passkey_value updated)) _ h6 in
      let (stored, same) =
        find-Memᴰ (λ passkey. w.cred_id passkey == w.result_cred_id result) passkeys passkey
          (ok_or-eq-ok verification_failed _ named) in
      let data_of : public_data ≡ v.updated_public_data = ground arith in
      (
        credential,
        authentication,
        passkeys,
        passkey,
        updated,
        result,
        ok_or-eq-ok invalid_input _ read_response,
        ok_or-eq-ok invalid_state _ read_state,
        read,
        ok_or-eq-ok verification_failed _ accepted,
        stored,
        (==_iff _ _).0 same,
        ground arith,
        ok_or-eq-ok verification_failed _ changed,
        ok_or-eq-ok store_failed _ written ∙ ap some data_of,
      )
