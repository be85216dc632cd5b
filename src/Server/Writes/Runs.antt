-- ===== src/Server/Writes/Runs.antt =====
-- What the calls of server/src/repository.rs do to the tables, as sequences of writes.
use rs_console.Common.{
  ◌≡◌, sym, subst, inl, inr, ◌&&◌, none, some, List, [], ◌∷◌, arith, Text, ◌==◌, nat_eq, text_eq,
  bool_eq, Bool-cases, Option-cases, Result, ok, err,
}
use rs_console.Server.Tables.{Tables, is_null}
use rs_console.Auth.Types.{Time, Uuid, SecretHash, AuthError}
use rs_console.Server.Writes.{
  Write, Writes, Writes-keep, capability_added, ceremony_added, session_touched, session_revoked,
  recovery_added, done,
}
use rs_console.Server.Sessions.{
  valid_session, earlier, touch_session, resume_session, rotate_session_csrf, delete_session,
}
use rs_console.Server.Calls.{
  StoreCall, failure, step, run, inserts_capability, inserts_ceremony, inserts_user, approves_user,
  rotates_all, registers, logs_in, resumes, rotates_csrf, logs_out, creates_recovery,
  approves_recovery, issues_setup, breaks_glass,
}
use rs_console.Server.Transaction.{Database}
use rs_console.Server.Ceremonies.{
  insert_capability, insert_ceremony, complete_registration, complete_authentication,
}
use rs_console.Server.Users.{insert_user, approve_user_with_setup, rotate_all_auth_epochs}
use rs_console.Server.Calls.Atomic.{transaction-cases}
use rs_console.Server.Recoveries.{
  create_recovery, approve_recovery, issue_recovery_setup, break_glass,
}
use rs_console.Server.Writes.Bodies.{
  log_in-Writes, one-Write, register-Writes, seed-Writes, approve-Writes, issue-Writes,
}
use rs_console.Server.Calls.Spent.{keeps}
use rs_console.Server.Writes.Revocations.{rotate-Writes, approve_request-Writes, open_window-Writes}

unchanged : (t t' : Tables) → t' ≡ t → Writes t' t
unchanged t t' same = subst (λ u. Writes u t) (sym same) done

resume_session-Writes :
    (db : Database) (hash : SecretHash) (now idle : Time) (t : Tables)
    → Writes (resume_session db hash now idle t).0 t
unfolding resume_session touch_session
resume_session-Writes db hash now idle t = elim (Bool-cases (db.fails 764)) [
  | inl a ↦ unchanged t _ (ground arith)
  | inr a ↦ elim (Bool-cases (db.fails 765)) [
    | inl b ↦ unchanged t _ (ground arith)
    | inr b ↦ elim (Option-cases (valid_session hash now t.users t.sessions)) [
      | inl e ↦ unchanged t _ (ground arith)
      | inr ((s, u), e) ↦
          elim (transaction-cases db 786 797 t
            (ok (record t { sessions = touch_session none s now idle t.sessions }, tt {0}))) [
              | inl same ↦ unchanged t _ (ground arith)
              | inr (t', x, h, same) ↦ one-Write (
                  session_touched (λ r. r.id == s.id) s.id none (earlier idle s.absolute_expires_at)
                    now (ground arith))
            ]
    ]
  ]
]

rotate_session_csrf-Writes :
    (db : Database) (hash csrf : SecretHash) (now idle : Time) (t : Tables)
    → Writes (rotate_session_csrf db hash csrf now idle t).0 t
unfolding rotate_session_csrf touch_session
rotate_session_csrf-Writes db hash csrf now idle t = elim (Bool-cases (db.fails 835)) [
  | inl a ↦ unchanged t _ (ground arith)
  | inr a ↦ elim (Bool-cases (db.fails 836)) [
    | inl b ↦ unchanged t _ (ground arith)
    | inr b ↦ elim (Option-cases (valid_session hash now t.users t.sessions)) [
      | inl e ↦ unchanged t _ (ground arith)
      | inr ((s, u), e) ↦
          elim (transaction-cases db 857 869 t (
            ok (record t { sessions = touch_session (some csrf) s now idle t.sessions }, tt {0}))) [
              | inl same ↦ unchanged t _ (ground arith)
              | inr (t', x, h, same) ↦ one-Write (
                  session_touched (λ r. r.id == s.id) s.id (some csrf)
                    (earlier idle s.absolute_expires_at) now (ground arith))
            ]
    ]
  ]
]

failure-Writes :
    {A : Type 0} (t : Tables) (r : Tables × Result AuthError A)
    → Writes r.0 t
    → Writes (failure r).0 t
failure-Writes t (t', ok a) w = w
failure-Writes t (t', err e) w = w

-- The tables after a call are those before with a sequence of writes made.
step-Writes :
    (db : Database) (print : Uuid → Text) (now : Time) (call : StoreCall) (t : Tables)
    → Writes (step db print now call t).0 t
unfolding step insert_capability insert_ceremony insert_user approve_user_with_setup
    rotate_all_auth_epochs complete_registration complete_authentication create_recovery
    approve_recovery issue_recovery_setup break_glass delete_session
step-Writes db print now (inserts_capability c) t =
    keeps (λ u. Writes u t) db _ _ t _ done
      (λ t' a e. one-Write (capability_added c db.clock (ground arith)))
step-Writes db print now (inserts_ceremony c) t =
    keeps (λ u. Writes u t) db _ _ t _ done (λ t' a e. one-Write (ceremony_added c (ground arith)))
step-Writes db print now (inserts_user u e) t =
    keeps (λ u. Writes u t) db _ _ t _ done (λ t' a k. seed-Writes db u now e t t' k)
step-Writes db print now (approves_user u c o) t =
    keeps (λ u. Writes u t) db _ _ t _ done (λ t' a k. approve-Writes db print u c o now t t' k)
step-Writes db print now (rotates_all reason) t =
    keeps (λ u. Writes u t) db _ _ t _ done (λ t' n k. rotate-Writes db now reason t t' n k)
step-Writes db print now (registers i j hash c e) t =
    keeps (λ u. Writes u t) db _ _ t _ done (λ t' a k. register-Writes db i j hash c now e t t' k)
step-Writes db print now (logs_in j v s e) t =
    keeps (λ u. Writes u t) db _ _ t _ done (λ t' a k. log_in-Writes db j v s now e t t' k)
step-Writes db print now (resumes hash idle) t =
    failure-Writes t _ (resume_session-Writes db hash now idle t)
step-Writes db print now (rotates_csrf hash csrf idle) t =
    failure-Writes t _ (rotate_session_csrf-Writes db hash csrf now idle t)
step-Writes db print now (logs_out hash) t =
    keeps (λ u. Writes u t) db _ _ t _ done
      (λ t' a e. one-Write (
        session_revoked (λ s. s.token_hash == hash && is_null s.revoked_at) db.clock
          (ground arith)))
step-Writes db print now (creates_recovery i u) t =
    keeps (λ u. Writes u t) db _ _ t _ done
      (λ t' a e. one-Write (recovery_added i u now (ground arith)))
step-Writes db print now (approves_recovery i o) t =
    keeps (λ u. Writes u t) db _ _ t _ done
      (λ t' a k. approve_request-Writes db print i o now t t' k)
step-Writes db print now (issues_setup i c o) t =
    keeps (λ u. Writes u t) db _ _ t _ done (λ t' a k. issue-Writes db print i c o now t t' k)
step-Writes db print now (breaks_glass i c reason) t =
    keeps (λ u. Writes u t) db _ _ t _ done
      (λ t' a k. open_window-Writes db print i c now reason t t' k)

-- What every write keeps, a run keeps.
pub run-keeps :
    (P : Tables → Type 0)
    → ((t t' : Tables) → Write t t' → P t → P t')
    → (print : Uuid → Text) (calls : List (Database × Time × StoreCall)) (t : Tables) → P t
    → P (run print calls t)
unfolding run
run-keeps P keep print [] t h = h
run-keeps P keep print ((db, now, call) ∷ calls) t h =
    run-keeps P keep print calls _ (Writes-keep P keep t _ (step-Writes db print now call t) h)
