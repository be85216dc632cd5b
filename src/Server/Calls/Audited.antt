-- ===== src/Server/Calls/Audited.antt =====
-- The audit of server/src/repository.rs through a sequence of calls.
use rs_console.Common.{◌≡◌, refl, sym, ap, ◌∙◌, List, [], ◌∷◌, ◌++◌, arith, Text}
use rs_console.Auth.Types.{Time, Uuid}
use rs_console.Server.Rows.{AuditRow}
use rs_console.Server.Tables.{Tables, add_capability, add_ceremony, add_recovery}
use rs_console.Server.Transaction.{Database}
use rs_console.Server.Ceremonies.{
  insert_capability, insert_ceremony, complete_registration, complete_authentication,
}
use rs_console.Server.Users.{insert_user, approve_user_with_setup, rotate_all_auth_epochs}
use rs_console.Server.Recoveries.{
  create_recovery, approve_recovery, issue_recovery_setup, break_glass,
}
use rs_console.Server.Calls.{
  StoreCall, step, run, inserts_capability, inserts_ceremony, inserts_user, approves_user,
  rotates_all, registers, logs_in, resumes, rotates_csrf, logs_out, creates_recovery,
  approves_recovery, issues_setup, breaks_glass,
}
use rs_console.Server.Calls.Spent.{keeps}
use rs_console.Server.Calls.Events.{
  log_in-audit, register-audit, seed-audit, approve-audit, issue-audit, rotate-audit,
  approve_request-audit, open_window-audit, resume_session-audit, rotate_session_csrf-audit,
  delete_session-audit,
}

-- One audit was written before the other.
abbrev pub IsAudited : List AuditRow → List AuditRow → Type 0
IsAudited before after = (events : List AuditRow) × (after ≡ before ++ events)

append-nil : (xs : List AuditRow) → xs ++ [] ≡ xs
append-nil [] = refl
append-nil (x ∷ xs) = ap (λ ys. x ∷ ys) (append-nil xs)

append_assoc : (xs ys zs : List AuditRow) → (xs ++ ys) ++ zs ≡ xs ++ (ys ++ zs)
append_assoc [] ys zs = refl
append_assoc (x ∷ xs) ys zs = ap (λ l. x ∷ l) (append_assoc xs ys zs)

same-IsAudited : (before after : List AuditRow) → after ≡ before → IsAudited before after
same-IsAudited before after e = ([], e ∙ sym (append-nil before))

step-IsAudited :
    (db : Database) (print : Uuid → Text) (now : Time) (call : StoreCall) (t : Tables)
    → IsAudited t.audit (step db print now call t).0.audit
unfolding step insert_capability insert_ceremony insert_user approve_user_with_setup
    rotate_all_auth_epochs complete_registration complete_authentication create_recovery
    approve_recovery issue_recovery_setup break_glass add_capability add_ceremony add_recovery
step-IsAudited db print now (inserts_capability c) t =
    keeps (λ t'. IsAudited t.audit t'.audit) db _ _ t _ (same-IsAudited _ _ refl)
      (λ t' a k. same-IsAudited t.audit t'.audit (ground arith))
step-IsAudited db print now (inserts_ceremony c) t =
    keeps (λ t'. IsAudited t.audit t'.audit) db _ _ t _ (same-IsAudited _ _ refl)
      (λ t' a k. same-IsAudited t.audit t'.audit (ground arith))
step-IsAudited db print now (inserts_user u e) t =
    keeps (λ t'. IsAudited t.audit t'.audit) db _ _ t _ (same-IsAudited _ _ refl)
      (λ t' a k. (_, seed-audit db u now e t t' k))
step-IsAudited db print now (approves_user u c o) t =
    keeps (λ t'. IsAudited t.audit t'.audit) db _ _ t _ (same-IsAudited _ _ refl)
      (λ t' a k. (_, approve-audit db print u c o now t t' k))
step-IsAudited db print now (rotates_all reason) t =
    keeps (λ t'. IsAudited t.audit t'.audit) db _ _ t _ (same-IsAudited _ _ refl)
      (λ t' a k. (_, rotate-audit db now reason t t' a k))
step-IsAudited db print now (registers i j hash c e) t =
    keeps (λ t'. IsAudited t.audit t'.audit) db _ _ t _ (same-IsAudited _ _ refl)
      (λ t' a k. (_, register-audit db i j hash c now e t t' k))
step-IsAudited db print now (logs_in j v s e) t =
    keeps (λ t'. IsAudited t.audit t'.audit) db _ _ t _ (same-IsAudited _ _ refl)
      (λ t' a k. (_, log_in-audit db j v s now e t t' k))
step-IsAudited db print now (creates_recovery i u) t =
    keeps (λ t'. IsAudited t.audit t'.audit) db _ _ t _ (same-IsAudited _ _ refl)
      (λ t' a k. same-IsAudited t.audit t'.audit (ground arith))
step-IsAudited db print now (approves_recovery i o) t =
    keeps (λ t'. IsAudited t.audit t'.audit) db _ _ t _ (same-IsAudited _ _ refl)
      (λ t' a k. (_, (approve_request-audit db print i o now t t' k).1))
step-IsAudited db print now (issues_setup i c o) t =
    keeps (λ t'. IsAudited t.audit t'.audit) db _ _ t _ (same-IsAudited _ _ refl)
      (λ t' a k. (_, issue-audit db print i c o now t t' k))
step-IsAudited db print now (breaks_glass i c reason) t =
    keeps (λ t'. IsAudited t.audit t'.audit) db _ _ t _ (same-IsAudited _ _ refl)
      (λ t' a k. (_, open_window-audit db print i c now reason t t' k))
step-IsAudited db print now (resumes hash idle) t =
    same-IsAudited _ _ (resume_session-audit db hash now idle t)
step-IsAudited db print now (rotates_csrf hash csrf idle) t =
    same-IsAudited _ _ (rotate_session_csrf-audit db hash csrf now idle t)
step-IsAudited db print now (logs_out hash) t = same-IsAudited _ _ (delete_session-audit db hash t)

-- After any sequence of calls, successful or not, the audit begins with all that it held before: no
-- event is ever changed or removed.
pub run-IsAudited :
    (print : Uuid → Text) (calls : List (Database × Time × StoreCall)) (t : Tables)
    → IsAudited t.audit (run print calls t).audit
unfolding run
run-IsAudited print [] t = same-IsAudited _ _ refl
run-IsAudited print ((db, now, call) ∷ calls) t =
    let (events, e) = step-IsAudited db print now call t in
    let (others, f) = run-IsAudited print calls (step db print now call t).0 in
    (events ++ others, f ∙ ap (λ l. l ++ others) e ∙ append_assoc t.audit events others)
