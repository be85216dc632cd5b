-- ===== src/Server/Webauthn.antt =====
-- `WebauthnEngine` of server/src/webauthn.rs. The library webauthn-rs, its JSON forms and the parser
-- of URLs are parameters; `none` is a failure of theirs.
pub mod Fields
pub mod Engine
pub mod Passkeys
use rs_console.Common.{
  ◌/◌, Bool, true, false, not, ◌&&◌, Option, none, some, List, if◌then◌else◌, Text, bytes, ◌==◌,
  nat_eq, text_eq, bool_eq, Result, ok_or, err,
}
use rs_console.Policy.Canonical.{Json}
use rs_console.Auth.Types.{Uuid, AuthError, invalid_input}

-- What the source reads of a URL.
pub record Url : Type 0 where
  pub path : Text
  pub query : Option Text
  pub fragment : Option Text

-- webauthn-rs, over its types: passkeys, the challenges and states of a registration and of an
-- authentication, the responses of a browser to both, and the result of an authentication.
-- `update_credential` returns the passkey as it leaves it.
pub record Webauthn (P C R D A RC PC AR : Type 0) : Type 0 where
  pub start_passkey_registration : Uuid → Text → Text → Option (List Text) → Option (C × R)
  pub finish_passkey_registration : RC → R → Option P
  pub start_discoverable_authentication : Option (D × A)
  pub identify_discoverable_authentication : PC → Option Uuid
  pub finish_discoverable_authentication : PC → A → List P → Option AR
  pub cred_id : P → Text
  pub result_cred_id : AR → Text
  pub update_credential : P → AR → Option P
  pub passkey_of : Json → Option P
  pub passkey_value : P → Option Json
  pub challenge_value : C → Option Json
  pub registration_of : Json → Option R
  pub registration_value : R → Option Json
  pub request_value : D → Option Json
  pub authentication_of : Json → Option A
  pub authentication_value : A → Option Json
  pub register_credential_of : Json → Option RC
  pub credential_of : Json → Option PC

abbrev pub production_rp_id : Text
production_rp_id = bytes "ricardosaad.com"

abbrev pub production_origin : Text
production_origin = bytes "https://ricardosaad.com"

-- `WebauthnEngine::new`, over the parser of URLs and `WebauthnBuilder`.
unfoldable pub new_engine :
    {W : Type 0} (parse_url : Text → Option Url) (build : Text → Url → Option W)
    → Text
    → Text
    → Bool
    → Result AuthError W
new_engine parse_url build rp_id origin production =
    if production && not (rp_id == production_rp_id && origin == production_origin)
    then err invalid_input
    else elim (parse_url origin) [
      | none ↦ err invalid_input
      | some url ↦ elim (url.path == bytes "/") [
        | false ↦ err invalid_input
        | true ↦ elim url.query [
          | some _ ↦ err invalid_input
          | none ↦ elim url.fragment [
            | some _ ↦ err invalid_input
            | none ↦ ok_or invalid_input (build rp_id url)
          ]
        ]
      ]
    ]
