-- ===== src/Server/Http.antt =====
-- The guards of server/src/http.rs: the status of an error, the session cookie, the token against
-- forgery, the origin, and the role of an operator. A header is its first value, `none` where it is
-- missing or where `to_str` fails.
pub mod Guarded
pub mod Responses
pub mod Public
pub mod Private
pub mod Routes
pub mod Absent
pub mod Answers
pub mod Operators
pub mod Origin
pub mod Cookie
pub mod Login
use rs_console.Common.{
  ℕ, Bool, true, false, not, Option, none, some, List, [], ◌∷◌, if◌then◌else◌, Text, bytes, ◌==◌,
  nat_eq, text_eq, bool_eq, Result, ◌>>=◌, ok_or, ok, err,
}
use rs_console.Auth.Types.{
  Time, SecretToken, Role, SessionPrincipal, AuthError, AuthConfig, invalid_input, invalid_token,
  invalid_state, unauthenticated, forbidden, verification_failed, store_failed, conflict,
}
use rs_console.Auth.Tokens.{Cryptography, parse_token}
use rs_console.Auth.Trim.{trim}
use rs_console.Auth.Interfaces.{CeremonyEngine, continue_with, AuthStore}
use rs_console.Auth.Service.Login.{authenticate_session}

abbrev pub session_cookie : Text
session_cookie = bytes "__Host-rs_session"

-- The headers that the guards read.
pub record HeaderMap : Type 0 where
  pub origin : Option Text
  pub content_type : Option Text
  pub cookie : Option Text
  pub csrf : Option Text

-- `IntoResponse for ApiError`.
unfoldable pub status : AuthError → ℕ
status invalid_input = 400
status invalid_token = 400
status invalid_state = 401
status unauthenticated = 401
status verification_failed = 401
status forbidden = 403
status conflict = 409
status store_failed = 503

-- `str::strip_prefix`.
unfoldable pub strip_prefix : Text → Text → Option Text
strip_prefix [] s = some s
strip_prefix (p ∷ ps) [] = none
strip_prefix (p ∷ ps) (x ∷ s) = let rest = strip_prefix ps s in if p == x then rest else none

-- `split(';')`: the pieces, the first one being read.
unfoldable pub split_semicolon : Text → Text × List Text
split_semicolon [] = ([], [])
split_semicolon (x ∷ s) =
    let (piece, pieces) = split_semicolon s in
    if x == 59 then ([], piece ∷ pieces) else (x ∷ piece, pieces)

-- `find_map` over the pieces, each trimmed.
unfoldable pub find_cookie : Text → List Text → Option Text
unfolding strip_prefix
find_cookie name [] = none
find_cookie name (piece ∷ pieces) =
    let rest = find_cookie name pieces in
    elim (strip_prefix name (trim piece)) [
      | none ↦ rest
      | some after ↦ elim (strip_prefix (bytes "=") after) [ none ↦ rest | some value ↦ some value ]
    ]

unfoldable pub cookie_value : HeaderMap → Text → Option Text
unfolding split_semicolon find_cookie
cookie_value headers name = elim headers.cookie [
  | none ↦ none
  | some text ↦ (let (piece, pieces) = split_semicolon text in find_cookie name (piece ∷ pieces))
]

unfoldable pub verify_origin_json : Text → HeaderMap → Result AuthError (Unit {0})
verify_origin_json browser_origin headers = elim headers.origin [
  | none ↦ err forbidden
  | some origin ↦
      if not (origin == browser_origin) then err forbidden else elim headers.content_type [
        | none ↦ err invalid_input
        | some content_type ↦
            if content_type == bytes "application/json" then ok tt else err invalid_input
      ]
]

module _ (c : Cryptography) where
  unfoldable pub session_token : HeaderMap → Result AuthError SecretToken
  unfolding cookie_value
  session_token headers = do
    value ← ok_or unauthenticated (cookie_value headers session_cookie)
    parse_token c value

  unfoldable pub session_and_csrf : HeaderMap → Result AuthError (SecretToken × SecretToken)
  unfolding session_token
  session_and_csrf headers = do
    token ← session_token headers
    value ← ok_or forbidden headers.csrf
    csrf ← parse_token c value
    ok (token, csrf)

  -- The tokens that a request of an operator needs.
  unfoldable pub operator_tokens :
      HeaderMap → Bool → Result AuthError (SecretToken × Option SecretToken)
  unfolding session_and_csrf session_token
  operator_tokens headers true = do (token, csrf) ← session_and_csrf headers; ok (token, some csrf)
  operator_tokens headers false = do token ← session_token headers; ok (token, none)

-- Only an operator passes.
unfoldable pub require_operator : SessionPrincipal → Result AuthError SessionPrincipal
require_operator principal = elim principal.user.role [
  | Role.user ↦ err forbidden
  | Role.operator ↦ ok principal
]

module _ {S : Type 0} (c : Cryptography) (stores : AuthStore S) (engine : CeremonyEngine)
    (config : AuthConfig) where
  -- `operator`, at the time `now`.
  unfoldable pub operator_guard :
      HeaderMap → Bool → Time → S → S × Result AuthError SessionPrincipal
  operator_guard headers csrf_required now s = elim (operator_tokens c headers csrf_required) [
    | err e ↦ (s, err e)
    | ok (token, csrf) ↦
        continue_with (authenticate_session c stores engine config token csrf now s)
          (λ principal s. (s, require_operator principal))
  ]

  -- The answers of `authenticate_session` that `optional_session` passes on.
  unfoldable pub or_anonymous :
      Result AuthError SessionPrincipal → Result AuthError (Option SessionPrincipal)
  or_anonymous (ok principal) = ok (some principal)
  or_anonymous (err unauthenticated) = ok none
  or_anonymous (err e) = err e

  -- `optional_session`.
  unfoldable pub optional_session :
      HeaderMap → Time → S → S × Result AuthError (Option SessionPrincipal)
  optional_session headers now s = elim (cookie_value headers session_cookie) [
    | none ↦ (s, ok none)
    | some value ↦ elim (parse_token c value) [
      | err e ↦ (s, err e)
      | ok token ↦
          let (s', r) = authenticate_session c stores engine config token none now s in
          (s', or_anonymous r)
    ]
  ]
