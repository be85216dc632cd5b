-- ===== src/Server/Calls/Atomic.antt =====
-- The tables after a call of server/src/repository.rs that fails.
use rs_console.Common.{
  ℕ, ◌≡◌, refl, ◌∙◌, ◌⊎◌, inl, inr, Bool, true, false, some, arith, Text, Bool-cases, Result, ok,
  err,
}
use rs_console.Auth.Types.{Time, Uuid, AuthError}
use rs_console.Server.Transaction.{Commit, Database, transaction, made, failed, answer_lost}
use rs_console.Server.Calls.{
  StoreCall, failure, step, inserts_capability, inserts_ceremony, inserts_user, approves_user,
  rotates_all, registers, logs_in, resumes, rotates_csrf, logs_out, creates_recovery,
  approves_recovery, issues_setup, breaks_glass,
}
use rs_console.Server.Tables.{Tables}
use rs_console.Server.Ceremonies.{
  insert_capability, insert_ceremony, complete_registration, complete_authentication,
}
use rs_console.Server.Users.{insert_user, approve_user_with_setup, rotate_all_auth_epochs}
use rs_console.Server.Recoveries.{
  create_recovery, approve_recovery, issue_recovery_setup, break_glass,
}
use rs_console.Server.Sessions.{delete_session}

Commit-cases : (k : Commit) → (k ≡ made) ⊎ ((k ≡ failed) ⊎ (k ≡ answer_lost))
Commit-cases made = inl refl
Commit-cases failed = inr (inl refl)
Commit-cases answer_lost = inr (inr refl)

-- The tables after a call are those before, or those that its body made.
pub transaction-cases :
    {S A : Type 0} (db : Database) (b c : ℕ) (t : S) (body : Result AuthError (S × A))
    → ((transaction db b c t body).0 ≡ t)
      ⊎ ((t' : S) × (a : A) × (body ≡ ok (t', a)) × ((transaction db b c t body).0 ≡ t'))
transaction-cases db b c t (ok (t', a)) = elim (Bool-cases (db.fails b)) [
  | inl e ↦ inl (ground arith)
  | inr e ↦ elim (Commit-cases (db.commit c)) [
    | inl k ↦ inr (t', a, refl, ground arith)
    | inr (inl k) ↦ inl (ground arith)
    | inr (inr k) ↦ inr (t', a, refl, ground arith)
  ]
]
transaction-cases db b c t (err x) = elim (Bool-cases (db.fails b)) [
  | inl e ↦ inl (ground arith)
  | inr e ↦ inl (ground arith)
]

-- When a transaction answers an error, nothing is changed, unless the answer of its commit is lost.
pub transaction-err :
    {S A : Type 0} (db : Database) (b c : ℕ) (t : S) (body : Result AuthError (S × A))
    (x : AuthError)
    → (transaction db b c t body).1 ≡ err x
    → ((transaction db b c t body).0 ≡ t) ⊎ (db.commit c ≡ answer_lost)
transaction-err db b c t (ok (t', a)) x h = elim (Bool-cases (db.fails b)) [
  | inl e ↦ inl (ground arith)
  | inr e ↦ elim (Commit-cases (db.commit c)) [
    | inl k ↦ absurd (ground arith)
    | inr (inl k) ↦ inl (ground arith)
    | inr (inr k) ↦ inr k
  ]
]
transaction-err db b c t (err y) x h = elim (Bool-cases (db.fails b)) [
  | inl e ↦ inl (ground arith)
  | inr e ↦ inl (ground arith)
]

-- A transaction that answers a value has made what its body made.
pub transaction-ok :
    {S A : Type 0} (db : Database) (b c : ℕ) (t : S) (body : Result AuthError (S × A)) (a : A)
    → (transaction db b c t body).1 ≡ ok a
    → body ≡ ok ((transaction db b c t body).0, a)
transaction-ok db b c t (ok (t', a')) a h = elim (Bool-cases (db.fails b)) [
  | inl e ↦ absurd (ground arith)
  | inr e ↦ elim (Commit-cases (db.commit c)) [
    | inl k ↦ ground arith
    | inr (inl k) ↦ absurd (ground arith)
    | inr (inr k) ↦ absurd (ground arith)
  ]
]
transaction-ok db b c t (err y) a h = elim (Bool-cases (db.fails b)) [
  | inl e ↦ absurd (ground arith)
  | inr e ↦ absurd (ground arith)
]

failure-err :
    {A : Type 0} (r : Tables × Result AuthError A) (x : AuthError)
    → (failure r).1 ≡ some x
    → ((failure r).0 ≡ r.0) × (r.1 ≡ err x)
failure-err (t, ok a) x h = cc
failure-err (t, err y) x h = (refl, ground arith)

transaction-failure :
    {A : Type 0} (db : Database) (b c : ℕ) (t : Tables) (body : Result AuthError (Tables × A))
    (x : AuthError)
    → (failure (transaction db b c t body)).1 ≡ some x
    → ((failure (transaction db b c t body)).0 ≡ t) ⊎ ((line : ℕ) × (db.commit line ≡ answer_lost))
transaction-failure db b c t body x h =
    let (same, failed_with) = failure-err (transaction db b c t body) x h in
    elim (transaction-err db b c t body x failed_with) [
      | inl e ↦ inl (same ∙ e)
      | inr lost ↦ inr (c, lost)
    ]

-- Whether a call only reads a session and extends it.
unfoldable pub is_resumption : StoreCall → Bool
is_resumption (resumes hash idle) = true
is_resumption (rotates_csrf hash csrf idle) = true
is_resumption call = false

-- A call that fails leaves every table as it was, unless the answer to a commit was lost. (Left out
-- are the two calls that extend a session: they read its user after they have committed.)
pub step-atomic :
    (db : Database) (print : Uuid → Text) (now : Time) (call : StoreCall) (t : Tables)
    (x : AuthError)
    → is_resumption call ≡ false
    → (step db print now call t).1 ≡ some x
    → ((step db print now call t).0 ≡ t) ⊎ ((line : ℕ) × (db.commit line ≡ answer_lost))
unfolding step is_resumption insert_capability insert_ceremony insert_user approve_user_with_setup
    rotate_all_auth_epochs complete_registration complete_authentication create_recovery
    approve_recovery issue_recovery_setup break_glass delete_session
step-atomic db print now (inserts_capability c) t x k h = transaction-failure db _ _ t _ x h
step-atomic db print now (inserts_ceremony c) t x k h = transaction-failure db _ _ t _ x h
step-atomic db print now (inserts_user u e) t x k h = transaction-failure db _ _ t _ x h
step-atomic db print now (approves_user u c o) t x k h = transaction-failure db _ _ t _ x h
step-atomic db print now (rotates_all reason) t x k h = transaction-failure db _ _ t _ x h
step-atomic db print now (registers i j hash c e) t x k h = transaction-failure db _ _ t _ x h
step-atomic db print now (logs_in j v s e) t x k h = transaction-failure db _ _ t _ x h
step-atomic db print now (logs_out hash) t x k h = transaction-failure db _ _ t _ x h
step-atomic db print now (creates_recovery i u) t x k h = transaction-failure db _ _ t _ x h
step-atomic db print now (approves_recovery i o) t x k h = transaction-failure db _ _ t _ x h
step-atomic db print now (issues_setup i c o) t x k h = transaction-failure db _ _ t _ x h
step-atomic db print now (breaks_glass i c reason) t x k h = transaction-failure db _ _ t _ x h
step-atomic db print now (resumes hash idle) t x k h = cc
step-atomic db print now (rotates_csrf hash csrf idle) t x k h = cc
