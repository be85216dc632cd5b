-- ===== src/Tests/Passkeys.antt =====
-- The theorems on server/src/webauthn.rs, over a library whose passkeys are their ids.
use mathlib.Core.List.{Memᴰ}
use rs_console.Common.{
  ◌≡◌, refl, true, false, Option, none, some, List, [], ◌∷◌, ◌++◌, ℕ_discrete, Text, bytes,
  Text-discrete, ok,
}
use rs_console.Server.Webauthn.{Webauthn}
use rs_console.Policy.Canonical.{Json, bool, string, object, end, field}
use rs_console.Auth.Types.{StoredCredential}
use rs_console.Server.Webauthn.Engine.{
  require_resident, selection, stored_passkey, stored_passkeys, engine_start_registration,
  engine_finish_authentication,
}
use rs_console.Server.Webauthn.Fields.{get_field, set_field, pointer, change_at}
use rs_console.Tests.Database.{ann}
use rs_console.Server.Webauthn.Passkeys.{start_registration-resident, finish_authentication-stored}

abbrev id_of : Json → Option Text
id_of (string id) = some id
id_of value = none

-- The options of a challenge, in which a discoverable passkey is only preferred.
abbrev options : Json
options = object (
    field (bytes "publicKey")
      (object (
        field (bytes "authenticatorSelection")
          (object (
            field (bytes "residentKey") (string (bytes "preferred"))
              (field (bytes "requireResidentKey") (bool false) end)))
          end))
      end)

abbrev library : Webauthn Text Text Text Text Text Text Text Text
library = record {
  start_passkey_registration = λ handle email name exclude. some (bytes "c", bytes "r");
  finish_passkey_registration = λ response state. some response;
  start_discoverable_authentication = some (bytes "d", bytes "a");
  identify_discoverable_authentication = λ response. some 2;
  finish_discoverable_authentication = λ response state passkeys. some response;
  cred_id = λ passkey. passkey;
  result_cred_id = λ result. result;
  update_credential = λ passkey result. some (passkey ++ bytes " used");
  passkey_of = id_of;
  passkey_value = λ passkey. some (string passkey);
  challenge_value = λ challenge. some options;
  registration_of = id_of;
  registration_value = λ state. some (string state);
  request_value = λ challenge. some (string challenge);
  authentication_of = id_of;
  authentication_value = λ state. some (string state);
  register_credential_of = id_of;
  credential_of = id_of;
}

abbrev saved : StoredCredential
saved = record {
  id = 22;
  user_id = bytes "ann";
  credential_id = bytes "key";
  public_data = string (bytes "key");
  revoked_at = none;
}

abbrev required : Json
required = object (
    field (bytes "publicKey")
      (object (
        field (bytes "authenticatorSelection")
          (object (
            field (bytes "residentKey") (string (bytes "required"))
              (field (bytes "requireResidentKey") (bool true) end)))
          end))
      end)

start_registration-resident_example :
    (pointer (selection ++ (bytes "residentKey" ∷ [])) required ≡ some (string (bytes "required")))
    × (pointer (selection ++ (bytes "requireResidentKey" ∷ [])) required ≡ some (bool true))
unfolding engine_start_registration stored_passkeys stored_passkey change_at require_resident
    set_field get_field Text-discrete ℕ_discrete
start_registration-resident_example =
    start_registration-resident library ann (saved ∷ []) required (string (bytes "r")) refl

finish_authentication-stored_example :
    (credential authentication : Text) × (passkeys : List Text) × (passkey updated result : Text)
    × (library.credential_of (string (bytes "key")) ≡ some credential)
    × (library.authentication_of (string (bytes "a")) ≡ some authentication)
    × (stored_passkeys library (saved ∷ []) ≡ ok passkeys)
    × (library.finish_discoverable_authentication credential authentication passkeys ≡ some result)
    × Memᴰ passkey passkeys
    × (passkey ≡ result)
    × (bytes "key" ≡ result)
    × (library.update_credential passkey result ≡ some updated)
    × (library.passkey_value updated ≡ some (string (bytes "key used")))
unfolding engine_finish_authentication stored_passkeys stored_passkey Text-discrete ℕ_discrete
finish_authentication-stored_example =
    finish_authentication-stored library (string (bytes "key")) (string (bytes "a")) (saved ∷ [])
      (record { credential_id = bytes "key"; updated_public_data = string (bytes "key used") }) refl
