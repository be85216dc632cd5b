-- ===== src/Server/Http/Public.antt =====
-- The handlers of the public routes of server/src/http.rs.
use rs_console.Common.{
  Bool, true, false, Option, none, some, List, [], ◌∷◌, ◌++◌, if◌then◌else◌, Text, bytes, Result,
  ok, err,
}
use rs_console.Policy.Canonical.{Json, null, bool, number, string, array}
use rs_console.Policy.Ids.{UserId, new_id}
use rs_console.Auth.Types.{
  Uuid, SecretToken, User, CeremonyKind, CapabilityPurpose, SessionGrant, SessionPrincipal,
  AuthError, AuthConfig, invalid_input, unauthenticated, store_failed,
}
use rs_console.Auth.Tokens.{parse_token, expose}
use rs_console.Auth.Interfaces.{CeremonyEngine, Call, lift, ◌>>=◌, AuthStore}
use rs_console.Auth.Service.{start_setup_registration, finish_registration}
use rs_console.Auth.Service.Login.{
  start_authentication, finish_authentication, authenticate_session, issue_session_csrf, logout,
}
use rs_console.Auth.Service.Accounts.{request_recovery}
use rs_console.Server.Names.{role_name}
use rs_console.Server.Http.{
  session_cookie, HeaderMap, cookie_value, verify_origin_json, session_and_csrf, optional_session,
}
use rs_console.Server.Http.Responses.{
  CeremonyFinish, SetupStart, RecoveryRequestBody, Web, Draws, Response, to_items, json, answer,
  no_content,
}

-- `live`.
abbrev pub live : Response
live = answer 200 (json ((bytes "status", string (bytes "ok")) ∷ []))

-- `ready`, where the store answers or not.
unfoldable pub ready : Bool → Response
ready true = answer 200 (json ((bytes "status", string (bytes "ready")) ∷ []))
ready false = answer 503 (json ((bytes "status", string (bytes "not_ready")) ∷ []))

-- `CapabilityDocument`.
abbrev pub capability_document : Text → List Text → Json
capability_document audience capabilities = json (
    (bytes "schema_version", number (bytes "1"))
    ∷ (bytes "audience", string audience)
    ∷ (bytes "capabilities", array (to_items capabilities))
    ∷ [])

unfoldable pub public_document : Option SessionPrincipal → Json
public_document (some principal) =
    capability_document (bytes "user")
      (bytes "session.logout" ∷ bytes "profile.read_self" ∷ bytes "recovery.request_self" ∷ [])
public_document none = capability_document (bytes "anonymous") (
    bytes "session.discover"
    ∷ bytes "auth.login"
    ∷ bytes "auth.setup"
    ∷ bytes "recovery.request"
    ∷ [])

-- The answer of `session_discovery` to one who has no session.
abbrev pub anonymous : Response
anonymous =
    answer 200 (
      json
        ((bytes "schema_version", number (bytes "1")) ∷ (bytes "authenticated", bool false) ∷ []))

unfoldable pub session_document : Web → SessionPrincipal → SecretToken → Json
unfolding expose role_name
session_document w principal csrf = json (
    (bytes "schema_version", number (bytes "1"))
    ∷ (bytes "authenticated", bool true)
    ∷ (
      bytes "principal",
      json (
          (bytes "id", string principal.user.id)
          ∷ (bytes "display_name", string principal.user.display_name)
          ∷ (bytes "role", string (role_name principal.user.role))
          ∷ []),
    )
    ∷ (bytes "csrf_token", string (expose w.cryptography csrf))
    ∷ (bytes "absolute_expires_at", string (w.print_time principal.absolute_expires_at))
    ∷ [])

-- The challenge of a started ceremony.
abbrev pub challenge_document : Web → Uuid → Json → Json
challenge_document w id public_key =
    json ((bytes "ceremony_id", string (w.print_uuid id)) ∷ (bytes "public_key", public_key) ∷ [])

-- What follows the name and the value in the cookie of a session.
abbrev pub cookie_attributes : Text
cookie_attributes = bytes "; Path=/; Secure; HttpOnly; SameSite=Strict"

-- The cookie that `login_finish` sets.
unfoldable pub login_cookie : Web → SecretToken → Text
unfolding expose
login_cookie w token = session_cookie ++ (b'=' ∷ (expose w.cryptography token ++ cookie_attributes))

-- The cookie that `logout` sets.
abbrev pub logout_cookie : Text
logout_cookie = bytes "__Host-rs_session=; Path=/; Secure; HttpOnly; SameSite=Strict; Max-Age=0"

unfoldable pub login_response : Web → SessionGrant → User → Result AuthError Response
unfolding expose role_name login_cookie
login_response w grant user =
    if w.header_value (login_cookie w grant.token)
    then ok (record {
      code = 200;
      body = json (
          (bytes "schema_version", number (bytes "1"))
          ∷ (bytes "authenticated", bool true)
          ∷ (bytes "role", string (role_name user.role))
          ∷ (bytes "csrf_token", string (expose w.cryptography grant.csrf))
          ∷ (bytes "absolute_expires_at", string (w.print_time grant.session.absolute_expires_at))
          ∷ []);
      set_cookie = some (login_cookie w grant.token);
      cache_control = none;
    })
    else err store_failed

module _ {S : Type 0} (w : Web) (stores : AuthStore S) (engine : CeremonyEngine)
    (config : AuthConfig) (browser_origin : Text) where
  -- `public_capabilities`.
  unfoldable pub public_capabilities : HeaderMap → Draws → Call S Response
  public_capabilities headers d = do
    principal ← optional_session w.cryptography stores engine config headers d.now
    lift (ok (answer 200 (public_document principal)))

  -- What `session_discovery` makes of the service's answer.
  unfoldable pub discovered :
      Result AuthError (SessionPrincipal × SecretToken) → Result AuthError Response
  discovered (ok (principal, csrf)) = ok (answer 200 (session_document w principal csrf))
  discovered (err unauthenticated) = ok anonymous
  discovered (err e) = err e

  -- `session_discovery`.
  unfoldable pub session_discovery : HeaderMap → Draws → Call S Response
  unfolding discovered
  session_discovery headers d s = elim (cookie_value headers session_cookie) [
    | none ↦ (s, ok anonymous)
    | some value ↦ elim (parse_token w.cryptography value) [
      | err e ↦ (s, err e)
      | ok token ↦
          let (s', r) =
            issue_session_csrf w.cryptography stores engine config d.csrf token d.now s in
          (s', discovered r)
    ]
  ]

  -- `login_start`.
  unfoldable pub login_start : HeaderMap → Draws → Call S Response
  login_start headers d = do
    _ ← lift (verify_origin_json browser_origin headers)
    (id, public_key) ← start_authentication w.cryptography stores engine config d.id d.now
    lift (ok (answer 200 (challenge_document w id public_key)))

  -- `login_finish`.
  unfoldable pub login_finish : HeaderMap → CeremonyFinish → Draws → Call S Response
  login_finish headers request d = do
    _ ← lift (verify_origin_json browser_origin headers)
    (grant, user) ←
        finish_authentication w.cryptography stores engine config d.id d.token d.csrf
          request.ceremony_id request.credential d.now
    lift (login_response w grant user)

  -- `logout`.
  unfoldable pub log_out : HeaderMap → Draws → Call S Response
  log_out headers d = do
    _ ← lift (verify_origin_json browser_origin headers)
    (token, csrf) ← lift (session_and_csrf w.cryptography headers)
    _ ← authenticate_session w.cryptography stores engine config token (some csrf) d.now
    _ ← logout w.cryptography stores engine config token
    lift (
        ok (record {
          code = 204;
          body = null;
          set_cookie = some logout_cookie;
          cache_control = none;
        }))

  -- The purpose of the capability that a setup starts with.
  abbrev pub setup_purpose : Bool → CapabilityPurpose
  setup_purpose true = CapabilityPurpose.recovery_setup
  setup_purpose false = CapabilityPurpose.setup

  -- `setup_start`.
  unfoldable pub setup_start : HeaderMap → SetupStart → Draws → Call S Response
  setup_start headers request d = do
    _ ← lift (verify_origin_json browser_origin headers)
    token ← lift (parse_token w.cryptography request.setup_token)
    (id, public_key) ←
        start_setup_registration w.cryptography stores engine config d.id token
          (setup_purpose request.recovery) d.now
    lift (ok (answer 200 (challenge_document w id public_key)))

  -- `setup_finish`.
  unfoldable pub setup_finish : HeaderMap → CeremonyFinish → Draws → Call S Response
  setup_finish headers request d = do
    _ ← lift (verify_origin_json browser_origin headers)
    _ ←
        finish_registration w.cryptography stores engine config request.ceremony_id
          CeremonyKind.registration request.credential d.now
    lift (ok no_content)

  -- `UserId::new` of a body; its error is that of an invalid input.
  abbrev pub read_user_id : Text → Result AuthError UserId
  read_user_id user_id = elim (new_id user_id) [ ok id ↦ ok id | err _ ↦ err invalid_input ]

  -- `recovery_request`.
  unfoldable pub recovery_request : HeaderMap → RecoveryRequestBody → Draws → Call S Response
  recovery_request headers request d = do
    _ ← lift (verify_origin_json browser_origin headers)
    user_id ← lift (read_user_id request.user_id)
    recovery ← request_recovery w.cryptography stores config user_id d.now
    lift (
        ok (
          answer 202 (
            json (
              (bytes "request_id", string (w.print_uuid recovery.id))
              ∷ (bytes "status", string (bytes "pending"))
              ∷ []))))
