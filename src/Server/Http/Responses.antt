-- ===== src/Server/Http/Responses.antt =====
-- What a request carries and what server/src/http.rs answers. What the libraries read and write is
-- in `Web`: the deserialization of a body (with the status of a rejected one), the text of a `Uuid`
-- and of a time, and the bytes that a header may hold.
use rs_console.Common.{
  ℕ, Bool, true, Option, none, some, List, [], ◌∷◌, if◌then◌else◌, Text, bytes, ◌==◌, nat_eq,
  text_eq, bool_eq, Result,
}
use rs_console.Policy.Canonical.{Json, Items, Fields, null, string, object, nil, cons, end, field}
use rs_console.Auth.Types.{Time, Uuid, SecretToken, CeremonyKind, AuthError}
use rs_console.Auth.Tokens.{Cryptography}
use rs_console.Server.Http.{HeaderMap, status}

-- The body of the end of a ceremony.
pub record CeremonyFinish : Type 0 where
  pub ceremony_id : Uuid
  pub credential : Json
  pub ceremony_kind : Option CeremonyKind

pub record SetupStart : Type 0 where
  pub setup_token : Text
  pub recovery : Bool

pub record RecoveryRequestBody : Type 0 where
  pub user_id : Text

pub record RecoverySetupBody : Type 0 where
  pub user_id : Text

pub record ApproveUserBody : Type 0 where
  pub user_id : Text
  pub email : Text
  pub display_name : Text

pub record Web : Type 0 where
  pub cryptography : Cryptography
  pub print_uuid : Uuid → Text
  pub parse_uuid : Text → Option Uuid
  pub print_time : Time → Text
  pub header_value : Text → Bool
  pub read_ceremony_finish : HeaderMap → Text → Result ℕ CeremonyFinish
  pub read_setup_start : HeaderMap → Text → Result ℕ SetupStart
  pub read_recovery_request : HeaderMap → Text → Result ℕ RecoveryRequestBody
  pub read_recovery_setup : HeaderMap → Text → Result ℕ RecoverySetupBody
  pub read_approve_user : HeaderMap → Text → Result ℕ ApproveUserBody

-- What the source draws while it handles a request: the times at which the guard and the handler
-- read the clock, fresh ids and fresh tokens.
pub record Draws : Type 0 where
  pub guarded_at : Time
  pub now : Time
  pub id : Uuid
  pub handle : Uuid
  pub token : SecretToken
  pub csrf : SecretToken

pub record Response : Type 0 where
  pub code : ℕ
  pub body : Json
  pub set_cookie : Option Text
  pub cache_control : Option Text

-- A `Value` from its entries.
abbrev pub to_fields : List (Text × Json) → Fields
to_fields [] = end
to_fields ((key, value) ∷ entries) = field key value (to_fields entries)

abbrev pub to_items : List Text → Items
to_items [] = nil
to_items (text ∷ texts) = cons (string text) (to_items texts)

abbrev pub json : List (Text × Json) → Json
json entries = object (to_fields entries)

-- An answer with a body and without one.
abbrev pub answer : ℕ → Json → Response
answer code body = record { code = code; body = body; set_cookie = none; cache_control = none }

abbrev pub no_content : Response
no_content = answer 204 null

-- `StatusCode::canonical_reason` of the statuses of an error.
unfoldable pub canonical_reason : ℕ → Text
canonical_reason code =
    if code == 400
    then bytes "Bad Request"
    else if code == 401
    then bytes "Unauthorized"
    else if code == 403
    then bytes "Forbidden"
    else if code == 409
    then bytes "Conflict"
    else bytes "Service Unavailable"

-- `IntoResponse for ApiError`: the status and the reason.
unfoldable pub error_response : AuthError → Response
error_response e =
    answer (status e) (json ((bytes "error", string (canonical_reason (status e))) ∷ []))

-- The middleware `no_store`.
unfoldable pub no_store : Response → Response
no_store response = record response { cache_control = some (bytes "no-store") }

-- `not_found`.
abbrev pub not_found : Response
not_found = answer 404 null

-- The configuration of the middleware `cors`.
pub record CorsLayer : Type 0 where
  pub allow_origin : Text
  pub allow_credentials : Bool
  pub allow_methods : List Text
  pub allow_headers : List Text

-- `cors`; `none` is the panic of `expect`.
unfoldable pub cors : Web → Text → Option CorsLayer
cors w browser_origin =
    if w.header_value browser_origin
    then some (record {
      allow_origin = browser_origin;
      allow_credentials = true;
      allow_methods = bytes "GET" ∷ bytes "POST" ∷ [];
      allow_headers = bytes "content-type" ∷ bytes "x-csrf-token" ∷ [];
    })
    else none
