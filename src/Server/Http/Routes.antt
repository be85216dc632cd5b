-- ===== src/Server/Http/Routes.antt =====
-- The two routers of server/src/http.rs: which handler a method and a path reach, and the answer.
-- A path is its segments; `{id}` is any one segment. axum answers HEAD as GET, without the body, and
-- a path that is there with another method with 405; a body or an id that cannot be read is answered
-- with the status of axum's rejection, before the handler runs. Preflight requests
-- end in the layer of tower_http.
use rs_console.Common.{
  ℕ, Bool, true, false, Option, none, some, List, [], ◌∷◌, ◌++◌, if◌then◌else◌, Text, bytes, ◌==◌,
  nat_eq, text_eq, bool_eq, Result, ok, err,
}
use rs_console.Policy.Canonical.{null}
use rs_console.Auth.Types.{Uuid, AuthError, AuthConfig}
use rs_console.Auth.Interfaces.{CeremonyEngine, Call, AuthStore}
use rs_console.Server.Http.{HeaderMap}
use rs_console.Server.Http.Responses.{
  Web, Draws, Response, answer, error_response, no_store, not_found,
}
use rs_console.Server.Http.Public.{
  live, ready, public_capabilities, session_discovery, login_start, login_finish, log_out,
  setup_start, setup_finish, recovery_request,
}
use rs_console.Server.Http.Private.{
  operator_bootstrap_start, operator_bootstrap_finish, get_recoveries, post_approval,
  post_recovery_setup, post_user, operator_capabilities,
}

pub data Method : Type 0 where
  get post head : Method

pub data Segment : Type 0 where
  literal : Text → Segment
  capture : Segment

-- The handlers.
pub data Endpoint : Type 0 where
  live_endpoint ready_endpoint public_capabilities_endpoint session_endpoint : Endpoint
  login_start_endpoint login_finish_endpoint logout_endpoint : Endpoint
  setup_start_endpoint setup_finish_endpoint recovery_request_endpoint : Endpoint
  bootstrap_start_endpoint bootstrap_finish_endpoint recoveries_endpoint : Endpoint
  approve_recovery_endpoint issue_setup_endpoint approve_user_endpoint : Endpoint
  operator_capabilities_endpoint : Endpoint

pub record Route : Type 0 where
  pub path : List Segment
  pub method : Method
  pub endpoint : Endpoint

abbrev pub route : List Segment → Method → Endpoint → Route
route path method endpoint = record { path = path; method = method; endpoint = endpoint }

abbrev pub one : Text → List Segment
one a = literal a ∷ []

abbrev pub v1 : Text → List Segment → List Segment
v1 a rest = literal (bytes "v1") ∷ literal a ∷ rest

abbrev pub health_routes : List Route
health_routes =
    route (literal (bytes "health") ∷ one (bytes "live")) get live_endpoint
    ∷ route (literal (bytes "health") ∷ one (bytes "ready")) get ready_endpoint
    ∷ []

abbrev pub auth : Text → List Segment → List Segment
auth a rest = v1 (bytes "auth") (literal a ∷ rest)

abbrev pub of_operator : Text → List Segment → List Segment
of_operator a rest = v1 (bytes "operator") (literal a ∷ rest)

-- `public_router`.
unfoldable pub public_routes : List Route
public_routes =
    health_routes
    ++ (route (v1 (bytes "capabilities") []) get public_capabilities_endpoint
        ∷ route (v1 (bytes "session") []) get session_endpoint
        ∷ route (auth (bytes "login") (one (bytes "start"))) post login_start_endpoint
        ∷ route (auth (bytes "login") (one (bytes "finish"))) post login_finish_endpoint
        ∷ route (auth (bytes "logout") []) post logout_endpoint
        ∷ route (auth (bytes "setup") (one (bytes "start"))) post setup_start_endpoint
        ∷ route (auth (bytes "setup") (one (bytes "finish"))) post setup_finish_endpoint
        ∷ route (v1 (bytes "recovery") (one (bytes "request"))) post recovery_request_endpoint
        ∷ [])

-- `private_router`.
unfoldable pub private_routes : List Route
private_routes =
    health_routes
    ++ (route (of_operator (bytes "bootstrap") (one (bytes "start"))) post bootstrap_start_endpoint
        ∷ route (of_operator (bytes "bootstrap") (one (bytes "finish"))) post
            bootstrap_finish_endpoint
        ∷ route (of_operator (bytes "recoveries") []) get recoveries_endpoint
        ∷ route (of_operator (bytes "recoveries") (capture ∷ one (bytes "approve"))) post
            approve_recovery_endpoint
        ∷ route (of_operator (bytes "recoveries") (capture ∷ one (bytes "setup"))) post
            issue_setup_endpoint
        ∷ route (of_operator (bytes "users") []) post approve_user_endpoint
        ∷ route (of_operator (bytes "capabilities") []) get operator_capabilities_endpoint
        ∷ [])

abbrev pub same_method : Method → Method → Bool
same_method get get = true
same_method post post = true
same_method head head = true
same_method m n = false

-- Whether a route of one method answers to another.
abbrev pub answers_to : Method → Method → Bool
answers_to get head = true
answers_to m n = same_method m n

-- The segment that a pattern captures, if the path fits it; empty if it captures none.
unfoldable pub fits : List Segment → List Text → Option Text
fits [] [] = some []
fits [] (text ∷ path) = none
fits (pattern ∷ patterns) [] = none
fits (literal name ∷ patterns) (text ∷ path) =
    let rest = fits patterns path in if name == text then rest else none
fits (capture ∷ patterns) (text ∷ path) = elim (fits patterns path) [
  | none ↦ none
  | some rest ↦ if text == [] then none else some text
]

-- What a request reaches.
pub data Target : Type 0 where
  found : Endpoint → Text → Target
  other_method no_path : Target

unfoldable pub target : List Route → Method → List Text → Target
unfolding fits
target [] method path = no_path
target (r ∷ routes) method path = elim (fits r.path path) [
  | none ↦ target routes method path
  | some id ↦ if answers_to r.method method then found r.endpoint id else other_method
]

pub record Request : Type 0 where
  pub method : Method
  pub path : List Text
  pub headers : HeaderMap
  pub body : Text

-- The answer of a handler; an error is `ApiError`'s.
abbrev pub respond : {S : Type 0} → S × Result AuthError Response → S × Response
respond (s, ok response) = (s, response)
respond (s, err e) = (s, error_response e)

-- A handler that takes a body, or the rejection of the body.
abbrev pub with_body : {S A : Type 0} → Result ℕ A → (A → Call S Response) → S → S × Response
with_body (ok a) handler s = respond (handler a s)
with_body (err code) handler s = (s, answer code null)

-- The same for the id in a path; axum rejects a malformed one with 400.
abbrev pub with_id : {S : Type 0} → Option Uuid → (Uuid → S → S × Response) → S → S × Response
with_id (some id) handler s = handler id s
with_id none handler s = (s, answer 400 null)

-- The answer that is sent to a method.
abbrev pub without_body : Method → Response → Response
without_body method response = record response {
  body = if same_method method head then null else response.body;
}

module _ {S : Type 0} (w : Web) (stores : AuthStore S) (engine : CeremonyEngine)
    (config : AuthConfig) (browser_origin : Text) (is_ready : S → Bool) where
  -- What a handler answers to a request whose path captures a text.
  unfoldable pub handle : Endpoint → Text → Request → Draws → S → S × Response
  handle live_endpoint id r d s = (s, live)
  handle ready_endpoint id r d s = (s, ready (is_ready s))
  handle public_capabilities_endpoint id r d s =
      respond (public_capabilities w stores engine config browser_origin r.headers d s)
  handle session_endpoint id r d s =
      respond (session_discovery w stores engine config browser_origin r.headers d s)
  handle login_start_endpoint id r d s =
      respond (login_start w stores engine config browser_origin r.headers d s)
  handle login_finish_endpoint id r d s =
      with_body (w.read_ceremony_finish r.headers r.body)
        (λ body. login_finish w stores engine config browser_origin r.headers body d) s
  handle logout_endpoint id r d s =
      respond (log_out w stores engine config browser_origin r.headers d s)
  handle setup_start_endpoint id r d s =
      with_body (w.read_setup_start r.headers r.body)
        (λ body. setup_start w stores engine config browser_origin r.headers body d) s
  handle setup_finish_endpoint id r d s =
      with_body (w.read_ceremony_finish r.headers r.body)
        (λ body. setup_finish w stores engine config browser_origin r.headers body d) s
  handle recovery_request_endpoint id r d s =
      with_body (w.read_recovery_request r.headers r.body)
        (λ body. recovery_request w stores engine config browser_origin r.headers body d) s
  handle bootstrap_start_endpoint id r d s =
      respond (operator_bootstrap_start w stores engine config browser_origin r.headers d s)
  handle bootstrap_finish_endpoint id r d s =
      with_body (w.read_ceremony_finish r.headers r.body)
        (λ body. operator_bootstrap_finish w stores engine config browser_origin r.headers body d) s
  handle recoveries_endpoint id r d s =
      respond (get_recoveries w stores engine config browser_origin r.headers d s)
  handle approve_recovery_endpoint id r d s =
      with_id (w.parse_uuid id)
        (λ id s. respond (post_approval w stores engine config browser_origin id r.headers d s)) s
  handle issue_setup_endpoint id r d s =
      with_id (w.parse_uuid id)
        (λ id.
          with_body (w.read_recovery_setup r.headers r.body)
            (λ body. post_recovery_setup w stores engine config browser_origin id r.headers body d))
        s
  handle approve_user_endpoint id r d s =
      with_body (w.read_approve_user r.headers r.body)
        (λ body. post_user w stores engine config browser_origin r.headers body d) s
  handle operator_capabilities_endpoint id r d s =
      respond (operator_capabilities w stores engine config browser_origin r.headers d s)

  -- The answer to what a request reaches.
  unfoldable pub serve_target : Target → Request → Draws → S → S × Response
  unfolding handle
  serve_target (found endpoint id) r d s = handle endpoint id r d s
  serve_target other_method r d s = (s, answer 405 null)
  serve_target no_path r d s = (s, not_found)

  -- A router, with the middleware `no_store` around its handlers, and without the body for HEAD.
  unfoldable pub serve : List Route → Request → Draws → S → S × Response
  unfolding serve_target target no_store
  serve routes r d s =
      let (s', response) = serve_target (target routes r.method r.path) r d s in
      (s', without_body r.method (no_store response))
