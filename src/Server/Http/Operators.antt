-- ===== src/Server/Http/Operators.antt =====
-- Who is answered by the handlers of operators' requests (server/src/http.rs).
use rs_console.Common.{
  ◌<◌, ◌≡◌, refl, inl, inr, Bool, true, false, arith, Text, Option-cases, Result, Result-cases, ok,
  err,
}
use rs_console.Auth.Types.{Time, Uuid, Role, SessionPrincipal, AuthError, AuthConfig}
use rs_console.Auth.Interfaces.{CeremonyEngine, Call, continue_with, AuthStore}
use rs_console.Server.Http.{
  HeaderMap, verify_origin_json, operator_tokens, require_operator, operator_guard,
}
use rs_console.Server.Http.Responses.{
  RecoverySetupBody, ApproveUserBody, Web, Draws, Response, no_store,
}
use rs_console.Server.Http.Private.{
  get_recoveries, post_approval, post_recovery_setup, post_user, operator_capabilities,
}
use rs_console.Server.Http.Routes.{
  Method, Endpoint, private_routes, same_method, target, Request, handle, serve_target, serve, get,
  post, live_endpoint, ready_endpoint, public_capabilities_endpoint, session_endpoint,
  login_start_endpoint, login_finish_endpoint, logout_endpoint, setup_start_endpoint,
  setup_finish_endpoint, recovery_request_endpoint, bootstrap_start_endpoint,
  bootstrap_finish_endpoint, recoveries_endpoint, approve_recovery_endpoint, issue_setup_endpoint,
  approve_user_endpoint, operator_capabilities_endpoint, found,
}
use rs_console.Server.Http.Answers.{respond-ok, continue-ok, lift-ok, RejectsBodies}
use rs_console.Auth.Service.Login.{authenticate_session}
use rs_console.Server.Http.Absent.{is_operators, method_of, answers_to-post, target-method}

passed-role :
    {S : Type 0} (r : S × Result AuthError SessionPrincipal) (p : SessionPrincipal)
    → (continue_with r (λ principal s. (s, require_operator principal))).1 ≡ ok p
    → p.user.role ≡ Role.operator
unfolding require_operator
passed-role (s, ok principal) p h = ground arith
passed-role (s, err e) p h = cc

module _ {S : Type 0} (w : Web) (stores : AuthStore S) (engine : CeremonyEngine)
    (config : AuthConfig) (browser_origin : Text) (is_ready : S → Bool) where
  -- The guard let an operator pass, with a token against forgery where the method is POST.
  abbrev pub IsGuarded : HeaderMap → Method → Time → S → Type 0
  IsGuarded headers method at s =
      (p : SessionPrincipal) × ((operator_guard w.cryptography stores engine config headers
          (same_method method post) at s).1
        ≡ ok p)
      × (p.user.role ≡ Role.operator)

  guard-role :
      (headers : HeaderMap) (csrf : Bool) (at : Time) (s : S) (p : SessionPrincipal)
      → (operator_guard w.cryptography stores engine config headers csrf at s).1 ≡ ok p
      → p.user.role ≡ Role.operator
  unfolding operator_guard
  guard-role headers csrf at s p h =
      elim (Result-cases (operator_tokens w.cryptography headers csrf)) [
        | inl ((token, sent), e) ↦
            passed-role (authenticate_session w.cryptography stores engine config token sent at s) p
              (ground arith)
        | inr (x, e) ↦ absurd (ground arith)
      ]

  get_recoveries-IsGuarded :
      (headers : HeaderMap) (d : Draws) (s : S) (response : Response)
      → (get_recoveries w stores engine config browser_origin headers d s).1 ≡ ok response
      → IsGuarded headers get d.guarded_at s
  unfolding get_recoveries
  get_recoveries-IsGuarded headers d s response h =
      let (p, e) = continue-ok _ _ response h in (p, e, guard-role headers false d.guarded_at s p e)

  operator_capabilities-IsGuarded :
      (headers : HeaderMap) (d : Draws) (s : S) (response : Response)
      → (operator_capabilities w stores engine config browser_origin headers d s).1 ≡ ok response
      → IsGuarded headers get d.guarded_at s
  unfolding operator_capabilities
  operator_capabilities-IsGuarded headers d s response h =
      let (p, e) = continue-ok _ _ response h in (p, e, guard-role headers false d.guarded_at s p e)

  -- What a handler that checks the origin first has checked, when it answers.
  operator_guard-IsGuarded :
      {B : Type 0} (headers : HeaderMap) (d : Draws) (s : S) (f : SessionPrincipal → Call S B)
      (b : B)
      → (continue_with
          (s, verify_origin_json browser_origin headers)
          (λ _ s.
            continue_with
              (operator_guard w.cryptography stores engine config headers true d.guarded_at s)
              f)).1
        ≡ ok b
      → IsGuarded headers post d.guarded_at s
  operator_guard-IsGuarded headers d s f b h =
      let (_, checked, rest) = lift-ok (verify_origin_json browser_origin headers) _ s b h in
      let (p, e) = continue-ok _ f b rest in (p, e, guard-role headers true d.guarded_at s p e)

  post_approval-IsGuarded :
      (id : Uuid) (headers : HeaderMap) (d : Draws) (s : S) (response : Response)
      → (post_approval w stores engine config browser_origin id headers d s).1 ≡ ok response
      → IsGuarded headers post d.guarded_at s
  unfolding post_approval
  post_approval-IsGuarded id headers d s response h =
      operator_guard-IsGuarded headers d s _ response h

  post_recovery_setup-IsGuarded :
      (id : Uuid) (headers : HeaderMap) (body : RecoverySetupBody) (d : Draws) (s : S)
      (response : Response)
      → (post_recovery_setup w stores engine config browser_origin id headers body d s).1
        ≡ ok response
      → IsGuarded headers post d.guarded_at s
  unfolding post_recovery_setup
  post_recovery_setup-IsGuarded id headers body d s response h =
      operator_guard-IsGuarded headers d s _ response h

  post_user-IsGuarded :
      (headers : HeaderMap) (body : ApproveUserBody) (d : Draws) (s : S) (response : Response)
      → (post_user w stores engine config browser_origin headers body d s).1 ≡ ok response
      → IsGuarded headers post d.guarded_at s
  unfolding post_user
  post_user-IsGuarded headers body d s response h =
      operator_guard-IsGuarded headers d s _ response h

  -- What an answer below 400 says of a handler of operators' requests.
  handle-IsGuarded :
      (endpoint : Endpoint) (id : Text) (r : Request) (d : Draws) (s : S)
      → RejectsBodies w
      → is_operators endpoint ≡ true
      → (handle w stores engine config browser_origin is_ready endpoint id r d s).1.code < 400
      → IsGuarded r.headers (method_of endpoint) d.guarded_at s
  unfolding handle is_operators method_of
  handle-IsGuarded recoveries_endpoint id r d s web own h =
      let (response, e) = respond-ok _ h in get_recoveries-IsGuarded r.headers d s response e
  handle-IsGuarded operator_capabilities_endpoint id r d s web own h =
      let (response, e) = respond-ok _ h in operator_capabilities-IsGuarded r.headers d s response e
  handle-IsGuarded approve_recovery_endpoint id r d s web own h =
      elim (Option-cases (w.parse_uuid id)) [
        | inl e ↦ absurd (ground arith)
        | inr (uuid, e) ↦
            let (response, k) =
              respond-ok (post_approval w stores engine config browser_origin uuid r.headers d s)
                (rw e at h) in
            post_approval-IsGuarded uuid r.headers d s response k
      ]
  handle-IsGuarded issue_setup_endpoint id r d s web own h = elim (Option-cases (w.parse_uuid id)) [
    | inl e ↦ absurd (ground arith)
    | inr (uuid, e) ↦ elim (Result-cases (w.read_recovery_setup r.headers r.body)) [
      | inl (body, k) ↦
          let (response, ok_) =
            respond-ok
              (post_recovery_setup w stores engine config browser_origin uuid r.headers body d s)
              (rw (e, k) at h) in
          post_recovery_setup-IsGuarded uuid r.headers body d s response ok_
      | inr (code, k) ↦ absurd (ground (arith, web.3 r.headers r.body code k))
    ]
  ]
  handle-IsGuarded approve_user_endpoint id r d s web own h =
      elim (Result-cases (w.read_approve_user r.headers r.body)) [
        | inl (body, k) ↦
            let (response, ok_) =
              respond-ok (post_user w stores engine config browser_origin r.headers body d s)
                (rw k at h) in
            post_user-IsGuarded r.headers body d s response ok_
        | inr (code, k) ↦ absurd (ground (arith, web.4 r.headers r.body code k))
      ]
  handle-IsGuarded live_endpoint id r d s web own h = cc
  handle-IsGuarded ready_endpoint id r d s web own h = cc
  handle-IsGuarded public_capabilities_endpoint id r d s web own h = cc
  handle-IsGuarded session_endpoint id r d s web own h = cc
  handle-IsGuarded login_start_endpoint id r d s web own h = cc
  handle-IsGuarded login_finish_endpoint id r d s web own h = cc
  handle-IsGuarded logout_endpoint id r d s web own h = cc
  handle-IsGuarded setup_start_endpoint id r d s web own h = cc
  handle-IsGuarded setup_finish_endpoint id r d s web own h = cc
  handle-IsGuarded recovery_request_endpoint id r d s web own h = cc
  handle-IsGuarded bootstrap_start_endpoint id r d s web own h = cc
  handle-IsGuarded bootstrap_finish_endpoint id r d s web own h = cc

  -- A request to the private router that reaches a handler of operators' requests is answered below
  -- 400 only to an operator: one whose session the guard accepts, and, where the method is POST,
  -- whose token against forgery it accepts too. (axum is taken to reject bodies with 400 or more.)
  pub private_routes-IsGuarded :
      (r : Request) (d : Draws) (s : S) (endpoint : Endpoint) (id : Text)
      → RejectsBodies w
      → target private_routes r.method r.path ≡ found endpoint id
      → is_operators endpoint ≡ true
      → (serve w stores engine config browser_origin is_ready private_routes r d s).1.code < 400
      → IsGuarded r.headers r.method d.guarded_at s
  unfolding serve serve_target no_store
  private_routes-IsGuarded r d s endpoint id web reached own h =
      let by = target-method private_routes r.method r.path endpoint id (inr refl) reached in
      let guarded = handle-IsGuarded endpoint id r d s web own (rw reached at h) in
      rw (answers_to-post (method_of endpoint) r.method by) guarded
