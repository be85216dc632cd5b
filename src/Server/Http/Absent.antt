-- ===== src/Server/Http/Absent.antt =====
-- What the public router does not reach, and what answers carry (server/src/http.rs).
use rs_console.Common.{
  ◌≡◌, refl, sym, ap, ◌∙◌, subst, ◌⊎◌, inl, inr, Bool, true, false, not, ◌&&◌, List, [], ◌∷◌, arith,
  Text, Bool-cases, Option-cases, all,
}
use rs_console.Server.Http.Routes.{
  Method, Endpoint, Route, public_routes, private_routes, same_method, answers_to, fits, target,
  get, post, head, live_endpoint, ready_endpoint, public_capabilities_endpoint, session_endpoint,
  bootstrap_start_endpoint, bootstrap_finish_endpoint, recoveries_endpoint,
  approve_recovery_endpoint, issue_setup_endpoint, approve_user_endpoint,
  operator_capabilities_endpoint, found,
}

-- The handlers of operators' requests.
unfoldable pub is_operators : Endpoint → Bool
is_operators recoveries_endpoint = true
is_operators approve_recovery_endpoint = true
is_operators issue_setup_endpoint = true
is_operators approve_user_endpoint = true
is_operators operator_capabilities_endpoint = true
is_operators endpoint = false

-- The handlers of a bootstrap.
unfoldable pub is_bootstrap : Endpoint → Bool
is_bootstrap bootstrap_start_endpoint = true
is_bootstrap bootstrap_finish_endpoint = true
is_bootstrap endpoint = false

-- The method of a handler.
unfoldable pub method_of : Endpoint → Method
method_of live_endpoint = get
method_of ready_endpoint = get
method_of public_capabilities_endpoint = get
method_of session_endpoint = get
method_of recoveries_endpoint = get
method_of operator_capabilities_endpoint = get
method_of endpoint = post

same_method-eq : (m n : Method) → same_method m n ≡ true → m ≡ n
same_method-eq get get h = refl
same_method-eq post post h = refl
same_method-eq head head h = refl
same_method-eq get post h = cc
same_method-eq get head h = cc
same_method-eq post get h = cc
same_method-eq post head h = cc
same_method-eq head get h = cc
same_method-eq head post h = cc

-- What answers to POST is POST only, which answers to nothing else.
pub answers_to-post :
    (m n : Method) → answers_to m n ≡ true → same_method n post ≡ same_method m post
answers_to-post get get h = refl
answers_to-post post post h = refl
answers_to-post head head h = refl
answers_to-post get head h = refl
answers_to-post get post h = cc
answers_to-post post get h = cc
answers_to-post post head h = cc
answers_to-post head get h = cc
answers_to-post head post h = cc

pub answers_to_post-eq : (m : Method) → answers_to m post ≡ true → m ≡ post
answers_to_post-eq post h = refl
answers_to_post-eq get h = cc
answers_to_post-eq head h = cc

-- What holds of every route in a table holds of the one that is reached.
pub target-found :
    (p : Route → Bool) (routes : List Route) (method : Method) (path : List Text)
    (endpoint : Endpoint) (id : Text)
    → all p routes ≡ true
    → target routes method path ≡ found endpoint id
    → (r : Route) × (p r ≡ true) × (r.endpoint ≡ endpoint) × (answers_to r.method method ≡ true)
unfolding target
target-found p [] method path endpoint id h e = cc
target-found p (r ∷ routes) method path endpoint id h e = elim (Option-cases (fits r.path path)) [
  | inl k ↦ target-found p routes method path endpoint id (ground arith) (ground arith)
  | inr (text, k) ↦ elim (Bool-cases (answers_to r.method method)) [
    | inl same ↦ (r, ground arith, ground arith, same)
    | inr other ↦ absurd (ground arith)
  ]
]

-- A request to the public router reaches no handler of an operator's requests and none of a
-- bootstrap, whatever its method and its path.
pub public_routes-absent :
    (method : Method) (path : List Text) (endpoint : Endpoint) (id : Text)
    → target public_routes method path ≡ found endpoint id
    → (is_operators endpoint ≡ false) × (is_bootstrap endpoint ≡ false)
unfolding public_routes is_operators is_bootstrap
public_routes-absent method path endpoint id h =
    let (r, holds, same, _) =
      target-found (λ r. not (is_operators r.endpoint) && not (is_bootstrap r.endpoint))
        public_routes method path endpoint id refl h in
    (ground arith, ground arith)

-- Each handler is reached by what its own method answers to only.
pub target-method :
    (routes : List Route) (method : Method) (path : List Text) (endpoint : Endpoint) (id : Text)
    → (routes ≡ public_routes) ⊎ (routes ≡ private_routes)
    → target routes method path ≡ found endpoint id
    → answers_to (method_of endpoint) method ≡ true
unfolding public_routes private_routes method_of
target-method routes method path endpoint id (inl e) h =
    let (r, holds, same, by) =
      target-found (λ r. same_method r.method (method_of r.endpoint)) public_routes method path
        endpoint id refl (rw (sym e) h) in
    subst (λ m. answers_to m method ≡ true)
      (same_method-eq r.method (method_of r.endpoint) holds ∙ ap method_of same) by
target-method routes method path endpoint id (inr e) h =
    let (r, holds, same, by) =
      target-found (λ r. same_method r.method (method_of r.endpoint)) private_routes method path
        endpoint id refl (rw (sym e) h) in
    subst (λ m. answers_to m method ≡ true)
      (same_method-eq r.method (method_of r.endpoint) holds ∙ ap method_of same) by
