-- ===== src/Server/Calls/Bodies.antt =====
-- What each transaction of server/src/repository.rs does to the ceremonies.
use rs_console.Common.{
  ℕ, ◌≡◌, inl, inr, ◌&&◌, Option, none, some, arith, Text, Option-cases, find, ok,
}
use rs_console.Policy.Ids.{UserId}
use rs_console.Auth.Types.{
  Time, Uuid, SecretHash, User, VerifiedCredential, AuthenticationVerification, Capability,
  SessionRecord, AuditEvent,
}
use rs_console.Server.Tables.{
  Tables, is_null, update, add_user, add_capability, add_credential, add_session, add_audit,
  insert_audit,
}
use rs_console.Server.Transaction.{Database}
use rs_console.Server.Ceremonies.{
  consume_ceremony, is_open, use_capability, register, is_login, log_in,
}
use rs_console.Server.Users.{advance_epochs, seed, approve, rotate}
use rs_console.Server.Recoveries.{
  is_of, is_pending_request, invalidate_user_auth, approve_request, issue, open_window,
}
use rs_console.Server.Sessions.{resume_session, rotate_session_csrf, delete_session}

pub log_in-ceremonies :
    (db : Database) (id : Uuid) (v : AuthenticationVerification) (s : SessionRecord) (now : Time)
    (e : AuditEvent) (t t' : Tables)
    → log_in db id v s now e t ≡ ok (t', tt)
    → t'.ceremonies ≡ update (is_login db id now) (consume_ceremony now) t.ceremonies
unfolding log_in insert_audit add_session add_audit
log_in-ceremonies db id v s now e t t' h = ground arith

pub register-ceremonies :
    (db : Database) (i id : Uuid) (hash : Option SecretHash) (c : VerifiedCredential) (now : Time)
    (e : AuditEvent) (t t' : Tables)
    → register db i id hash c now e t ≡ ok (t', tt)
    → t'.ceremonies ≡ update (is_open id now) (consume_ceremony now) t.ceremonies
unfolding register insert_audit add_audit add_credential use_capability
register-ceremonies db i id none c now e t t' h = ground arith
register-ceremonies db i id (some hash) c now e t t' h = ground arith

pub rotate-ceremonies :
    (db : Database) (now : Time) (reason : Text) (t t' : Tables) (n : ℕ)
    → rotate db now reason t ≡ ok (t', n)
    → t'.ceremonies ≡ update (λ c. is_null c.consumed_at) (consume_ceremony now) t.ceremonies
unfolding rotate insert_audit add_audit advance_epochs
rotate-ceremonies db now reason t t' n h = ground arith

pub invalidate-ceremonies :
    (db : Database) (u : Text) (now : Time) (t t' : Tables)
    → invalidate_user_auth db u now t ≡ ok t'
    → t'.ceremonies
      ≡ update (λ c. is_of u c.user_id && is_null c.consumed_at) (consume_ceremony now) t.ceremonies
unfolding invalidate_user_auth advance_epochs
invalidate-ceremonies db u now t t' h = ground arith

pub approve_request-ceremonies :
    (db : Database) (print : Uuid → Text) (i : Uuid) (o : UserId) (now : Time) (t t' : Tables)
    → approve_request db print i o now t ≡ ok (t', tt)
    → (u : Text) × (t'.ceremonies
        ≡ update
            (λ c. is_of u c.user_id && is_null c.consumed_at)
            (consume_ceremony now)
            t.ceremonies)
unfolding approve_request insert_audit add_audit invalidate_user_auth advance_epochs
approve_request-ceremonies db print i o now t t' h =
    elim (Option-cases (find (is_pending_request i) t.recoveries)) [
      | inl e ↦ absurd (ground arith)
      | inr (r, e) ↦ (r.user_id, ground arith)
    ]

pub open_window-ceremonies :
    (db : Database) (print : Uuid → Text) (i : Uuid) (c : Capability) (now : Time) (r : Text)
    (t t' : Tables)
    → open_window db print i c now r t ≡ ok (t', tt)
    → t'.ceremonies
      ≡ update
          (λ d. is_of c.user_id d.user_id && is_null d.consumed_at)
          (consume_ceremony now)
          t.ceremonies
unfolding open_window insert_audit add_audit add_capability invalidate_user_auth advance_epochs
open_window-ceremonies db print i c now r t t' h = ground arith

pub issue-ceremonies :
    (db : Database) (print : Uuid → Text) (i : Uuid) (c : Capability) (o : UserId) (now : Time)
    (t t' : Tables)
    → issue db print i c o now t ≡ ok (t', tt)
    → t'.ceremonies ≡ t.ceremonies
unfolding issue insert_audit add_audit add_capability
issue-ceremonies db print i c o now t t' h = ground arith

pub approve-ceremonies :
    (db : Database) (print : Uuid → Text) (u : User) (c : Capability) (o : UserId) (now : Time)
    (t t' : Tables)
    → approve db print u c o now t ≡ ok (t', tt)
    → t'.ceremonies ≡ t.ceremonies
unfolding approve insert_audit add_audit add_capability add_user
approve-ceremonies db print u c o now t t' h = ground arith

pub seed-ceremonies :
    (db : Database) (u : User) (now : Time) (e : AuditEvent) (t t' : Tables)
    → seed db u now e t ≡ ok (t', tt)
    → t'.ceremonies ≡ t.ceremonies
unfolding seed insert_audit add_audit add_user
seed-ceremonies db u now e t t' h = ground arith

pub resume_session-ceremonies :
    (db : Database) (hash : SecretHash) (now idle : Time) (t : Tables)
    → (resume_session db hash now idle t).0.ceremonies ≡ t.ceremonies
unfolding resume_session
resume_session-ceremonies db hash now idle t = ground arith

pub rotate_session_csrf-ceremonies :
    (db : Database) (hash csrf : SecretHash) (now idle : Time) (t : Tables)
    → (rotate_session_csrf db hash csrf now idle t).0.ceremonies ≡ t.ceremonies
unfolding rotate_session_csrf
rotate_session_csrf-ceremonies db hash csrf now idle t = ground arith

pub delete_session-ceremonies :
    (db : Database) (hash : SecretHash) (t : Tables)
    → (delete_session db hash t).0.ceremonies ≡ t.ceremonies
unfolding delete_session
delete_session-ceremonies db hash t = ground arith
