-- ===== src/Server/Writes/Bodies.antt =====
-- Each transaction of server/src/repository.rs as a sequence of writes.
use rs_console.Common.{
  ◌≡◌, refl, ◌⊎◌, inl, inr, Option, none, some, arith, Text, bytes, find, Result-cases, ok,
}
use rs_console.Auth.Types.{
  Time, Uuid, SecretHash, User, VerifiedCredential, AuthenticationVerification, Capability,
  SessionRecord, AuditEvent,
}
use rs_console.Server.Tables.{
  Tables, update, Inserted, add_user, add_capability, add_credential, add_session, insert_audit,
  inserted, not_unique, violated,
}
use rs_console.Server.Transaction.{Database}
use rs_console.Server.Ceremonies.{
  consume_ceremony, consume_capability, is_open, is_open_hash, returned_user, is_issued,
  complete_recovery, use_capability, register, is_login, is_used, log_in,
}
use rs_console.Server.Writes.{
  use_credential, issue_row, Write, Writes, user_added, credential_added, credential_used,
  capability_added, capability_consumed, ceremony_consumed, session_added, recovery_issued,
  recovery_completed, event_added, done, then,
}
use rs_console.Server.Users.{uuid_value, seed, approve}
use rs_console.Server.Recoveries.{is_approved_request, issue}
use rs_console.Policy.Ids.{UserId}
use rs_console.Server.Calls.Events.{at}
use rs_console.Policy.Canonical.{object, end, field}

pub Inserted-cases :
    (r : Inserted) → ((t : Tables) × (r ≡ inserted t)) ⊎ ((r ≡ not_unique) ⊎ (r ≡ violated))
Inserted-cases (inserted t) = inl (t, refl)
Inserted-cases not_unique = inr (inl refl)
Inserted-cases violated = inr (inr refl)

pub audited-Writes :
    (db : Database) (e : AuditEvent) (now : Time) (t t' : Tables)
    → insert_audit db e now t ≡ ok t'
    → Writes t' t
unfolding insert_audit
audited-Writes db e now t t' h = then t t' (event_added e now (ground arith)) done

pub log_in-Writes :
    (db : Database) (id : Uuid) (v : AuthenticationVerification) (s : SessionRecord) (now : Time)
    (e : AuditEvent) (t t' : Tables)
    → log_in db id v s now e t ≡ ok (t', tt)
    → Writes t' t
unfolding log_in
log_in-Writes db id v s now e t t' h =
    let t1 : Tables = record t {
      ceremonies = update (is_login db id now) (consume_ceremony now) t.ceremonies;
    } in
    let t2 : Tables = record t1 {
      credentials =
          update (is_used db v s.user_id) (use_credential v.updated_public_data now) t1.credentials;
    } in
    elim (Inserted-cases (add_session s now t2)) [
      | inl (t3, e3) ↦ then t t1 (ceremony_consumed (is_login db id now) now refl) (
          then t1 t2 (credential_used (is_used db v s.user_id) v.updated_public_data now refl)
            (then t2 t3 (session_added s now e3) (audited-Writes db e now t3 t' (ground arith))))
      | inr bad ↦ absurd (ground arith)
    ]

pub one-Write : {t t' : Tables} → Write t t' → Writes t' t
one-Write {t} {t'} w = then t t' w done

-- The writes of a registration after its capability is consumed.
pub credential-Writes :
    (db : Database) (i : Uuid) (u : Text) (c : VerifiedCredential) (now : Time) (e : AuditEvent)
    (t2 t3 t' : Tables)
    → add_credential i u c now t2 ≡ inserted t3
    → insert_audit db e now (record t3 {
      recoveries = update (is_issued e.subject_user_id) (complete_recovery now) t3.recoveries;
    })
      ≡ ok t'
    → Writes t' t2
credential-Writes db i u c now e t2 t3 t' e3 audited = then t2 t3 (credential_added i u c now e3) (
    then t3 _ (recovery_completed e.subject_user_id now refl)
      (audited-Writes db e now _ t' audited))

pub register-Writes :
    (db : Database) (i id : Uuid) (hash : Option SecretHash) (c : VerifiedCredential) (now : Time)
    (e : AuditEvent) (t t' : Tables)
    → register db i id hash c now e t ≡ ok (t', tt)
    → Writes t' t
unfolding register use_capability returned_user
register-Writes db i id none c now e t t' h =
    let t1 : Tables = record t {
      ceremonies = update (is_open id now) (consume_ceremony now) t.ceremonies;
    } in
    elim (Result-cases (returned_user (find (is_open id now) t.ceremonies))) [
      | inr (x, bad) ↦ absurd (ground arith)
      | inl ((u, kind), of_user) ↦ elim (Inserted-cases (add_credential i u c now t1)) [
        | inr bad ↦ absurd (ground arith)
        | inl (t3, e3) ↦
            then t t1 (ceremony_consumed (is_open id now) now refl)
              (credential-Writes db i u c now e t1 t3 t' e3 (ground arith))
      ]
    ]
register-Writes db i id (some hash) c now e t t' h =
    let t1 : Tables = record t {
      ceremonies = update (is_open id now) (consume_ceremony now) t.ceremonies;
    } in
    let t2 : Tables = record t1 {
      capabilities = update (is_open_hash hash now) (consume_capability now) t1.capabilities;
    } in
    elim (Result-cases (returned_user (find (is_open id now) t.ceremonies))) [
      | inr (x, bad) ↦ absurd (ground arith)
      | inl ((u, kind), of_user) ↦ elim (Inserted-cases (add_credential i u c now t2)) [
        | inr bad ↦ absurd (ground arith)
        | inl (t3, e3) ↦ then t t1 (ceremony_consumed (is_open id now) now refl) (
            then t1 t2 (capability_consumed (is_open_hash hash now) now refl)
              (credential-Writes db i u c now e t2 t3 t' e3 (ground arith)))
      ]
    ]

pub seed-Writes :
    (db : Database) (u : User) (now : Time) (e : AuditEvent) (t t' : Tables)
    → seed db u now e t ≡ ok (t', tt)
    → Writes t' t
unfolding seed
seed-Writes db u now e t t' h = elim (Inserted-cases (add_user u now t)) [
  | inl (t1, e1) ↦ then t t1 (user_added u now e1) (audited-Writes db e now t1 t' (ground arith))
  | inr bad ↦ absurd (ground arith)
]

abbrev approved_event : (Uuid → Text) → User → Capability → UserId → Time → AuditEvent
approved_event print u c o now =
    (at now (bytes "user.approved_with_setup") (some o) (some u.id)
      (object (field (bytes "capability_id") (uuid_value print c.id) end))).event

abbrev issued_event : (Uuid → Text) → Uuid → Capability → UserId → Time → AuditEvent
issued_event print i c o now =
    (at now (bytes "recovery.setup_issued") (some o) (some c.user_id)
      (object (field (bytes "recovery_id") (uuid_value print i) end))).event

pub approve-Writes :
    (db : Database) (print : Uuid → Text) (u : User) (c : Capability) (o : UserId) (now : Time)
    (t t' : Tables)
    → approve db print u c o now t ≡ ok (t', tt)
    → Writes t' t
unfolding approve
approve-Writes db print u c o now t t' h = elim (Inserted-cases (add_user u now t)) [
  | inl (t1, e1) ↦ elim (Inserted-cases (add_capability c db.clock t1)) [
    | inl (t2, e2) ↦ then t t1 (user_added u now e1) (
        then t1 t2 (capability_added c db.clock e2)
          (audited-Writes db (approved_event print u c o now) now t2 t' (ground arith)))
    | inr bad ↦ absurd (ground arith)
  ]
  | inr bad ↦ absurd (ground arith)
]

pub issue-Writes :
    (db : Database) (print : Uuid → Text) (i : Uuid) (c : Capability) (o : UserId) (now : Time)
    (t t' : Tables)
    → issue db print i c o now t ≡ ok (t', tt)
    → Writes t' t
unfolding issue
issue-Writes db print i c o now t t' h =
    let t1 : Tables = record t {
      recoveries = update (is_approved_request i c.user_id) (issue_row now) t.recoveries;
    } in
    elim (Inserted-cases (add_capability c db.clock t1)) [
      | inl (t2, e2) ↦ then t t1 (recovery_issued i c.user_id now refl) (
          then t1 t2 (capability_added c db.clock e2)
            (audited-Writes db (issued_event print i c o now) now t2 t' (ground arith)))
      | inr bad ↦ absurd (ground arith)
    ]
