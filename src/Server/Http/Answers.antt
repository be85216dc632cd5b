-- ===== src/Server/Http/Answers.antt =====
-- The answers of a handler that fails (server/src/http.rs).
use rs_console.Common.{ℕ, ◌≤◌, ◌<◌, ◌≡◌, refl, arith, Text, Result, ok, err}
use rs_console.Auth.Types.{
  AuthError, invalid_input, invalid_token, invalid_state, unauthenticated, forbidden,
  verification_failed, store_failed, conflict,
}
use rs_console.Auth.Interfaces.{Call, continue_with}
use rs_console.Server.Http.{HeaderMap, status}
use rs_console.Server.Http.Responses.{Web, Response, error_response}
use rs_console.Server.Http.Routes.{respond}

pub status-ge : (e : AuthError) → 400 ≤ status e
unfolding status
status-ge invalid_input = omega arith
status-ge invalid_token = omega arith
status-ge invalid_state = omega arith
status-ge unauthenticated = omega arith
status-ge verification_failed = omega arith
status-ge forbidden = omega arith
status-ge conflict = omega arith
status-ge store_failed = omega arith

module _ {S : Type 0} where
  -- An answer below 400 is a handler's own.
  pub respond-ok :
      (r : S × Result AuthError Response)
      → (respond r).1.code < 400
      → (response : Response) × (r.1 ≡ ok response)
  unfolding error_response
  respond-ok (s, ok response) h = (response, refl)
  respond-ok (s, err e) h = absurd (omega (arith, status-ge e))

  pub respond-err :
      (r : S × Result AuthError Response) (x : AuthError)
      → r.1 ≡ err x
      → ((respond r).0 ≡ r.0) × (400 ≤ (respond r).1.code)
  unfolding error_response
  respond-err (s, ok response) x h = cc
  respond-err (s, err e) x h = (refl, status-ge e)

module _ {S A B : Type 0} where
  -- A chain of calls that succeeds has succeeded in its first call.
  pub continue-ok :
      (r : S × Result AuthError A) (f : A → Call S B) (b : B)
      → (continue_with r f).1 ≡ ok b
      → (a : A) × (r.1 ≡ ok a)
  continue-ok (s, ok a) f b h = (a, refl)
  continue-ok (s, err e) f b h = cc

module _ {S A B : Type 0} where
  -- The same for a first step that needs no store, with what the rest answers.
  pub lift-ok :
      (r : Result AuthError A) (f : A → Call S B) (s : S) (b : B)
      → (continue_with (s, r) f).1 ≡ ok b
      → (a : A) × (r ≡ ok a) × ((f a s).1 ≡ ok b)
  lift-ok (ok a) f s b h = (a, refl, h)
  lift-ok (err e) f s b h = cc

-- axum rejects a body with a status of 400 or more.
abbrev pub Rejects : {A : Type 0} → (HeaderMap → Text → Result ℕ A) → Type 0
Rejects read =
    (headers : HeaderMap) (body : Text) (code : ℕ) → read headers body ≡ err code → 400 ≤ code

abbrev pub RejectsBodies : Web → Type 0
RejectsBodies w =
    Rejects w.read_ceremony_finish
    × Rejects w.read_setup_start
    × Rejects w.read_recovery_request
    × Rejects w.read_recovery_setup
    × Rejects w.read_approve_user
