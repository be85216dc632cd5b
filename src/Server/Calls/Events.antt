-- ===== src/Server/Calls/Events.antt =====
-- What each transaction of server/src/repository.rs does to the audit.
use rs_console.Common.{
  ℕ, ◌≡◌, inl, inr, Option, none, some, [], ◌∷◌, ◌++◌, arith, Text, bytes, Option-cases, length,
  find, ok,
}
use rs_console.Policy.Ids.{UserId, new_id}
use rs_console.Auth.Types.{
  Time, Uuid, SecretHash, User, VerifiedCredential, AuthenticationVerification, Capability,
  SessionRecord, AuditEvent,
}
use rs_console.Server.Rows.{RecoveryRow, AuditRow}
use rs_console.Server.Tables.{
  Tables, add_user, add_capability, add_credential, add_session, add_audit, insert_audit,
}
use rs_console.Server.Transaction.{Database}
use rs_console.Server.Ceremonies.{use_capability, register, log_in}
use rs_console.Server.Sessions.{resume_session, rotate_session_csrf, delete_session}
use rs_console.Server.Users.{advance_epochs, uuid_value, seed, approve, rotate}
use rs_console.Server.Recoveries.{
  is_pending_request, invalidate_user_auth, approve_request, issue, open_window,
}
use rs_console.Server.Calls.{failure}
use rs_console.Policy.Canonical.{Json, number, string, object, end, field}
use rs_console.Common.Decimal.{print_nat}

pub insert_audit-audit :
    (db : Database) (e : AuditEvent) (now : Time) (t t' : Tables)
    → insert_audit db e now t ≡ ok t'
    → t'.audit ≡ t.audit ++ (record { occurred_at = now; event = e } ∷ [])
unfolding insert_audit add_audit
insert_audit-audit db e now t t' h = ground arith

pub log_in-audit :
    (db : Database) (id : Uuid) (v : AuthenticationVerification) (s : SessionRecord) (now : Time)
    (e : AuditEvent) (t t' : Tables)
    → log_in db id v s now e t ≡ ok (t', tt)
    → t'.audit ≡ t.audit ++ (record { occurred_at = now; event = e } ∷ [])
unfolding log_in insert_audit add_session add_audit
log_in-audit db id v s now e t t' h = ground arith

pub register-audit :
    (db : Database) (i id : Uuid) (hash : Option SecretHash) (c : VerifiedCredential) (now : Time)
    (e : AuditEvent) (t t' : Tables)
    → register db i id hash c now e t ≡ ok (t', tt)
    → t'.audit ≡ t.audit ++ (record { occurred_at = now; event = e } ∷ [])
unfolding register insert_audit add_audit add_credential use_capability
register-audit db i id none c now e t t' h = ground arith
register-audit db i id (some hash) c now e t t' h = ground arith

pub seed-audit :
    (db : Database) (u : User) (now : Time) (e : AuditEvent) (t t' : Tables)
    → seed db u now e t ≡ ok (t', tt)
    → t'.audit ≡ t.audit ++ (record { occurred_at = now; event = e } ∷ [])
unfolding seed insert_audit add_audit add_user
seed-audit db u now e t t' h = ground arith

-- An event of a call at a time.
abbrev pub at : Time → Text → Option UserId → Option UserId → Json → AuditRow
at now type_ actor subject value = record {
  occurred_at = now;
  event = record {
    event_type = type_;
    actor_user_id = actor;
    subject_user_id = subject;
    data_value = value;
  };
}

pub approve-audit :
    (db : Database) (print : Uuid → Text) (u : User) (c : Capability) (o : UserId) (now : Time)
    (t t' : Tables)
    → approve db print u c o now t ≡ ok (t', tt)
    → t'.audit
      ≡ t.audit
        ++ (at now
              (bytes "user.approved_with_setup")
              (some o)
              (some u.id)
              (object (field (bytes "capability_id") (uuid_value print c.id) end))
            ∷ [])
unfolding approve insert_audit add_audit add_capability add_user
approve-audit db print u c o now t t' h = ground arith

pub issue-audit :
    (db : Database) (print : Uuid → Text) (i : Uuid) (c : Capability) (o : UserId) (now : Time)
    (t t' : Tables)
    → issue db print i c o now t ≡ ok (t', tt)
    → t'.audit
      ≡ t.audit
        ++ (at now
              (bytes "recovery.setup_issued")
              (some o)
              (some c.user_id)
              (object (field (bytes "recovery_id") (uuid_value print i) end))
            ∷ [])
unfolding issue insert_audit add_audit add_capability
issue-audit db print i c o now t t' h = ground arith

pub rotate-audit :
    (db : Database) (now : Time) (reason : Text) (t t' : Tables) (n : ℕ)
    → rotate db now reason t ≡ ok (t', n)
    → t'.audit
      ≡ t.audit
        ++ (at now (bytes "auth.epoch_rotated_all") none none (
              object (
                field
                  (bytes "reason")
                  (string reason)
                  (field (bytes "users") (number (print_nat (length t.users))) end)))
            ∷ [])
unfolding rotate insert_audit add_audit advance_epochs
rotate-audit db now reason t t' n h = ground arith

pub approve_request-audit :
    (db : Database) (print : Uuid → Text) (i : Uuid) (o : UserId) (now : Time) (t t' : Tables)
    → approve_request db print i o now t ≡ ok (t', tt)
    → (r : RecoveryRow) × (t'.audit
        ≡ t.audit
          ++ (at now
                (bytes "recovery.approved")
                (some o)
                (some r.user_id)
                (object (field (bytes "recovery_id") (uuid_value print i) end))
              ∷ []))
unfolding approve_request insert_audit add_audit invalidate_user_auth advance_epochs new_id
approve_request-audit db print i o now t t' h =
    elim (Option-cases (find (is_pending_request i) t.recoveries)) [
      | inl e ↦ absurd (ground arith)
      | inr (r, e) ↦ (r, ground arith)
    ]

pub open_window-audit :
    (db : Database) (print : Uuid → Text) (i : Uuid) (c : Capability) (now : Time) (reason : Text)
    (t t' : Tables)
    → open_window db print i c now reason t ≡ ok (t', tt)
    → t'.audit
      ≡ t.audit
        ++ (at now (bytes "operator.break_glass_opened") none (some c.user_id) (
              object (
                field
                  (bytes "credential_id")
                  (uuid_value print i)
                  (field (bytes "reason") (string reason) end)))
            ∷ [])
unfolding open_window insert_audit add_audit add_capability invalidate_user_auth advance_epochs
open_window-audit db print i c now reason t t' h = ground arith

pub resume_session-audit :
    (db : Database) (hash : SecretHash) (now idle : Time) (t : Tables)
    → (failure (resume_session db hash now idle t)).0.audit ≡ t.audit
unfolding resume_session
resume_session-audit db hash now idle t = ground arith

pub rotate_session_csrf-audit :
    (db : Database) (hash csrf : SecretHash) (now idle : Time) (t : Tables)
    → (failure (rotate_session_csrf db hash csrf now idle t)).0.audit ≡ t.audit
unfolding rotate_session_csrf
rotate_session_csrf-audit db hash csrf now idle t = ground arith

pub delete_session-audit :
    (db : Database) (hash : SecretHash) (t : Tables)
    → (failure (delete_session db hash t)).0.audit ≡ t.audit
unfolding delete_session
delete_session-audit db hash t = ground arith
