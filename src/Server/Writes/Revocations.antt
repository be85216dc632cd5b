-- ===== src/Server/Writes/Revocations.antt =====
-- The transactions of server/src/repository.rs that revoke, as sequences of writes.
use rs_console.Common.{
  ℕ, ◌≡◌, refl, subst, inl, inr, Bool, true, ◌&&◌, none, some, arith, Text, bytes, ◌==◌, nat_eq,
  text_eq, bool_eq, Option-cases, length, find, Result-cases, ok,
}
use rs_console.Common.Decimal.{print_nat}
use rs_console.Policy.Canonical.{number, string, object, end, field}
use rs_console.Policy.Ids.{UserId, new_id}
use rs_console.Auth.Types.{Time, Uuid, Capability}
use rs_console.Server.Rows.{UserRow, CapabilityRow, CeremonyRow, SessionRow}
use rs_console.Server.Tables.{Tables, is_null, update, add_capability}
use rs_console.Server.Transaction.{Database}
use rs_console.Server.Ceremonies.{consume_ceremony, consume_capability}
use rs_console.Server.Users.{advance_epoch, advance_epochs, uuid_value, rotate}
use rs_console.Server.Recoveries.{
  is_of, is_pending_request, is_operator_credential, invalidate_user_auth, approve_request,
  open_window,
}
use rs_console.Server.Calls.Events.{at}
use rs_console.Server.Writes.{
  revoke_session, revoke_credential, approve_row, Writes, epochs_advanced, credential_revoked,
  capability_added, capability_consumed, ceremony_consumed, session_revoked, recovery_approved,
  then,
}
use rs_console.Server.Writes.Bodies.{Inserted-cases, audited-Writes}

-- The tables after each statement of a revocation of the rows that three conditions pick.
abbrev advanced : (UserRow → Bool) → Time → Tables → Tables
advanced p now t = record t { users = update p (advance_epoch now) t.users }

abbrev revoked : (SessionRow → Bool) → Time → Tables → Tables
revoked p now t = record t { sessions = update p (revoke_session now) t.sessions }

abbrev closed : (CeremonyRow → Bool) → Time → Tables → Tables
closed p now t = record t { ceremonies = update p (consume_ceremony now) t.ceremonies }

abbrev spent : (CapabilityRow → Bool) → Time → Tables → Tables
spent p now t = record t { capabilities = update p (consume_capability now) t.capabilities }

revocation-Writes :
    (users : UserRow → Bool) (sessions : SessionRow → Bool) (ceremonies : CeremonyRow → Bool)
    (capabilities : CapabilityRow → Bool) (now : Time) (t t' : Tables)
    → Writes t' (
        spent capabilities now
          (closed ceremonies now (revoked sessions now (advanced users now t))))
    → Writes t' t
revocation-Writes users sessions ceremonies capabilities now t t' rest =
    then t (advanced users now t) (epochs_advanced users now refl) (
      then _ (revoked sessions now (advanced users now t)) (session_revoked sessions now refl) (
        then _ (closed ceremonies now (revoked sessions now (advanced users now t)))
          (ceremony_consumed ceremonies now refl)
          (then _ _ (capability_consumed capabilities now refl) rest)))

pub rotate-Writes :
    (db : Database) (now : Time) (reason : Text) (t t' : Tables) (n : ℕ)
    → rotate db now reason t ≡ ok (t', n)
    → Writes t' t
unfolding rotate advance_epochs
rotate-Writes db now reason t t' n h =
    revocation-Writes (λ u. true) (λ s. is_null s.revoked_at) (λ c. is_null c.consumed_at)
      (λ c. is_null c.consumed_at) now t t'
      (audited-Writes db
        (at now (bytes "auth.epoch_rotated_all") none none (
          object (
            field (bytes "reason") (string reason)
              (field (bytes "users") (number (print_nat (length t.users))) end)))).event
        now _ t' (ground arith))

-- What an invalidation leaves is what its four statements make.
invalidate_made :
    (db : Database) (u : Text) (now : Time) (t t' : Tables)
    → invalidate_user_auth db u now t ≡ ok t'
    → t'
      ≡ spent
          (λ c. c.user_id == u && is_null c.consumed_at)
          now
          (closed
            (λ c. is_of u c.user_id && is_null c.consumed_at)
            now
            (revoked
              (λ s. s.user_id == u && is_null s.revoked_at)
              now
              (advanced (λ u'. u'.id == u) now t)))
unfolding invalidate_user_auth advance_epochs
invalidate_made db u now t t' h = ground arith

invalidation-Writes :
    (db : Database) (u : Text) (now : Time) (t t1 t' : Tables)
    → invalidate_user_auth db u now t ≡ ok t1
    → Writes t' t1
    → Writes t' t
invalidation-Writes db u now t t1 t' h rest =
    revocation-Writes (λ u'. u'.id == u) (λ s. s.user_id == u && is_null s.revoked_at)
      (λ c. is_of u c.user_id && is_null c.consumed_at)
      (λ c. c.user_id == u && is_null c.consumed_at) now t t'
      (subst (Writes t') (invalidate_made db u now t t1 h) rest)

pub approve_request-Writes :
    (db : Database) (print : Uuid → Text) (i : Uuid) (o : UserId) (now : Time) (t t' : Tables)
    → approve_request db print i o now t ≡ ok (t', tt)
    → Writes t' t
unfolding approve_request new_id
approve_request-Writes db print i o now t t' h =
    let t1 : Tables = record t {
      recoveries = update (is_pending_request i) (approve_row now o) t.recoveries;
    } in
    elim (Option-cases (find (is_pending_request i) t.recoveries)) [
      | inl e ↦ absurd (ground arith)
      | inr (r, e) ↦ elim (Result-cases (invalidate_user_auth db r.user_id now t1)) [
        | inr (x, bad) ↦ absurd (ground arith)
        | inl (t2, e2) ↦ then t t1 (recovery_approved i now o refl) (
            invalidation-Writes db r.user_id now t1 t2 t' e2 (
              audited-Writes db
                (at now (bytes "recovery.approved") (some o) (some r.user_id)
                  (object (field (bytes "recovery_id") (uuid_value print i) end))).event
                now t2 t' (ground arith)))
      ]
    ]

pub open_window-Writes :
    (db : Database) (print : Uuid → Text) (i : Uuid) (c : Capability) (now : Time) (reason : Text)
    (t t' : Tables)
    → open_window db print i c now reason t ≡ ok (t', tt)
    → Writes t' t
unfolding open_window
open_window-Writes db print i c now reason t t' h =
    let t1 : Tables = record t {
      credentials = update (is_operator_credential i t.users) (revoke_credential now) t.credentials;
    } in
    elim (Option-cases (find (is_operator_credential i t.users) t.credentials)) [
      | inl e ↦ absurd (ground arith)
      | inr (r, e) ↦ elim (Result-cases (invalidate_user_auth db r.user_id now t1)) [
        | inr (x, bad) ↦ absurd (ground arith)
        | inl (t2, e2) ↦ elim (Inserted-cases (add_capability c db.clock t2)) [
          | inr bad ↦ absurd (ground arith)
          | inl (t3, e3) ↦
              then t t1 (credential_revoked (is_operator_credential i t.users) now refl) (
                invalidation-Writes db r.user_id now t1 t2 t' e2 (
                  then t2 t3 (capability_added c db.clock e3) (
                    audited-Writes db
                      (at now (bytes "operator.break_glass_opened") none (some c.user_id) (
                        object (
                          field (bytes "credential_id") (uuid_value print i)
                            (field (bytes "reason") (string reason) end)))).event
                      now t3 t' (ground arith))))
        ]
      ]
    ]
