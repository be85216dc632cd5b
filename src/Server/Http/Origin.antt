-- ===== src/Server/Http/Origin.antt =====
-- Requests from another origin than the browser's (server/src/http.rs).
use rs_console.Common.{
  ℕ, ◌≤◌, ◌≡◌, refl, ◌⊎◌, Bool, Option, none, some, List, arith, Text, Result, ok, err,
}
use rs_console.Auth.Types.{Uuid, AuthError, AuthConfig}
use rs_console.Auth.Interfaces.{CeremonyEngine, Call, continue_with, AuthStore}
use rs_console.Server.Http.{verify_origin_json}
use rs_console.Server.Http.Responses.{Web, Draws, Response, error_response, no_store}
use rs_console.Server.Http.Public.{
  login_start, login_finish, log_out, setup_start, setup_finish, recovery_request,
}
use rs_console.Server.Http.Private.{
  operator_bootstrap_start, operator_bootstrap_finish, post_approval, post_recovery_setup,
  post_user,
}
use rs_console.Server.Http.Routes.{
  Endpoint, Route, public_routes, private_routes, target, Request, respond, with_body, with_id,
  without_body, handle, serve_target, serve, post, live_endpoint, ready_endpoint,
  public_capabilities_endpoint, session_endpoint, login_start_endpoint, login_finish_endpoint,
  logout_endpoint, setup_start_endpoint, setup_finish_endpoint, recovery_request_endpoint,
  bootstrap_start_endpoint, bootstrap_finish_endpoint, recoveries_endpoint,
  approve_recovery_endpoint, issue_setup_endpoint, approve_user_endpoint,
  operator_capabilities_endpoint, found, other_method, no_path,
}
use rs_console.Server.Http.Absent.{method_of, answers_to_post-eq, target-method}
use rs_console.Server.Http.Answers.{status-ge, RejectsBodies}

-- The store is as it was, and the answer is an error.
abbrev pub IsRefused : {S : Type 0} → S → S × Response → Type 0
IsRefused s answered = (answered.0 ≡ s) × (400 ≤ answered.1.code)

refused :
    {S A : Type 0} (check : Result AuthError A) (x : AuthError) (s : S) (f : A → Call S Response)
    → check ≡ err x
    → IsRefused s (respond (continue_with (s, check) f))
unfolding error_response
refused (ok a) x s f e = cc
refused (err y) x s f e = (refl, status-ge y)

with_body-IsRefused :
    {S A : Type 0} (read : Result ℕ A) (handler : A → Call S Response) (s : S)
    → ((code : ℕ) → read ≡ err code → 400 ≤ code)
    → ((a : A) → IsRefused s (respond (handler a s)))
    → IsRefused s (with_body read handler s)
with_body-IsRefused (ok a) handler s web h = h a
with_body-IsRefused (err code) handler s web h = (refl, web code refl)

with_id-IsRefused :
    {S : Type 0} (id : Option Uuid) (handler : Uuid → S → S × Response) (s : S)
    → ((uuid : Uuid) → IsRefused s (handler uuid s))
    → IsRefused s (with_id id handler s)
with_id-IsRefused (some uuid) handler s h = h uuid
with_id-IsRefused none handler s h = (refl, omega arith)

module _ {S : Type 0} (w : Web) (stores : AuthStore S) (engine : CeremonyEngine)
    (config : AuthConfig) (browser_origin : Text) (is_ready : S → Bool) where
  handle-IsRefused :
      (endpoint : Endpoint) (id : Text) (r : Request) (d : Draws) (s : S) (x : AuthError)
      → RejectsBodies w
      → method_of endpoint ≡ post
      → verify_origin_json browser_origin r.headers ≡ err x
      → IsRefused s (handle w stores engine config browser_origin is_ready endpoint id r d s)
  unfolding handle method_of login_start login_finish log_out setup_start setup_finish
      recovery_request operator_bootstrap_start operator_bootstrap_finish post_approval
      post_recovery_setup post_user
  handle-IsRefused live_endpoint id r d s x web by e = cc
  handle-IsRefused ready_endpoint id r d s x web by e = cc
  handle-IsRefused public_capabilities_endpoint id r d s x web by e = cc
  handle-IsRefused session_endpoint id r d s x web by e = cc
  handle-IsRefused recoveries_endpoint id r d s x web by e = cc
  handle-IsRefused operator_capabilities_endpoint id r d s x web by e = cc
  handle-IsRefused login_start_endpoint id r d s x web by e = refused _ x s _ e
  handle-IsRefused logout_endpoint id r d s x web by e = refused _ x s _ e
  handle-IsRefused bootstrap_start_endpoint id r d s x web by e = refused _ x s _ e
  handle-IsRefused login_finish_endpoint id r d s x web by e =
      with_body-IsRefused (w.read_ceremony_finish r.headers r.body) _ s (web.0 r.headers r.body)
        (λ body. refused _ x s _ e)
  handle-IsRefused setup_start_endpoint id r d s x web by e =
      with_body-IsRefused (w.read_setup_start r.headers r.body) _ s (web.1 r.headers r.body)
        (λ body. refused _ x s _ e)
  handle-IsRefused setup_finish_endpoint id r d s x web by e =
      with_body-IsRefused (w.read_ceremony_finish r.headers r.body) _ s (web.0 r.headers r.body)
        (λ body. refused _ x s _ e)
  handle-IsRefused recovery_request_endpoint id r d s x web by e =
      with_body-IsRefused (w.read_recovery_request r.headers r.body) _ s (web.2 r.headers r.body)
        (λ body. refused _ x s _ e)
  handle-IsRefused bootstrap_finish_endpoint id r d s x web by e =
      with_body-IsRefused (w.read_ceremony_finish r.headers r.body) _ s (web.0 r.headers r.body)
        (λ body. refused _ x s _ e)
  handle-IsRefused approve_user_endpoint id r d s x web by e =
      with_body-IsRefused (w.read_approve_user r.headers r.body) _ s (web.4 r.headers r.body)
        (λ body. refused _ x s _ e)
  handle-IsRefused approve_recovery_endpoint id r d s x web by e =
      with_id-IsRefused (w.parse_uuid id) _ s (λ uuid. refused _ x s _ e)
  handle-IsRefused issue_setup_endpoint id r d s x web by e =
      with_id-IsRefused (w.parse_uuid id) _ s (λ uuid.
        with_body-IsRefused (w.read_recovery_setup r.headers r.body) _ s (web.3 r.headers r.body)
          (λ body. refused _ x s _ e))

  -- A POST to either router that is not from the browser's origin or whose content type is not
  -- JSON's is answered with an error and leaves the store as it was, whatever its path and its body.
  -- (axum is taken to reject bodies with 400 or more.)
  pub serve-IsRefused :
      (routes : List Route) (r : Request) (d : Draws) (s : S) (x : AuthError)
      → RejectsBodies w
      → (routes ≡ public_routes) ⊎ (routes ≡ private_routes)
      → r.method ≡ post
      → verify_origin_json browser_origin r.headers ≡ err x
      → IsRefused s (serve w stores engine config browser_origin is_ready routes r d s)
  unfolding serve serve_target no_store
  serve-IsRefused routes r d s x web known by e =
      elim (target routes r.method r.path)
          as (λ t.
            (target routes r.method r.path ≡ t)
            → IsRefused s (
                let (s', response) =
                  serve_target w stores engine config browser_origin is_ready t r d s in
                (s', without_body r.method (no_store response)))) [
                  | found endpoint id ↦ λ reached.
                      let own = target-method routes r.method r.path endpoint id known reached in
                      handle-IsRefused endpoint id r d s x web
                        (answers_to_post-eq (method_of endpoint) (rw by at own)) e
                  | other_method ↦ λ reached. (refl, omega arith)
                  | no_path ↦ λ reached. (refl, omega arith)
                ]
        refl
