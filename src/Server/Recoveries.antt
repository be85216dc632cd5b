-- ===== src/Server/Recoveries.antt =====
-- Recovery in server/src/repository.rs: a request, its approval, the setup that is issued for it,
-- and the break-glass recovery of an operator.
pub mod Revoked
use rs_console.Common.{
  Bool, false, not, ◌&&◌, Option, none, some, List, if◌then◌else◌, Text, bytes, ◌==◌, nat_eq,
  text_eq, bool_eq, any, find, Result, ◌>>=◌, ok_or, ok, err,
}
use rs_console.Policy.Ids.{UserId, new_id}
use rs_console.Policy.Canonical.{string, object, end, field}
use rs_console.Auth.Types.{
  Time, Uuid, Capability, RecoveryRequest, AuthError, forbidden, store_failed, conflict,
}
use rs_console.Server.Rows.{UserRow, CredentialRow, RecoveryRow, or_store}
use rs_console.Server.Tables.{
  Tables, is_null, update, affects_one, user_exists, add_capability, is_pending, add_recovery,
  insert_or_store, insert_unique, insert_audit,
}
use rs_console.Server.Transaction.{Database, statement, transaction, single}
use rs_console.Server.Queries.{is_operator}
use rs_console.Server.Ceremonies.{consume_ceremony, consume_capability}
use rs_console.Server.Users.{advance_epochs, uuid_value}

-- `user_id = $1`, which is not true of a null.
abbrev pub is_of : Text → Option Text → Bool
is_of user_id none = false
is_of user_id (some id) = id == user_id

abbrev pub is_pending_request : Uuid → RecoveryRow → Bool
is_pending_request id r = r.id == id && is_pending r

abbrev pub is_approved_request : Uuid → Text → RecoveryRow → Bool
is_approved_request id user_id r =
    r.id == id
    && not (is_null r.approved_at)
    && is_null r.setup_issued_at
    && is_null r.completed_at
    && r.user_id == user_id

-- The credential of an operator that is not revoked.
abbrev pub is_operator_credential : Uuid → List UserRow → CredentialRow → Bool
is_operator_credential id users c =
    c.id == id && is_null c.revoked_at && any (λ u. u.id == c.user_id && is_operator u) users

module _ (db : Database) where
  -- `create_recovery`.
  unfoldable pub create_recovery :
      Uuid → UserId → Time → Tables → Tables × Result AuthError RecoveryRequest
  create_recovery id user_id now t = single db 905 t (do
    t ← insert_unique (add_recovery id user_id now t)
    ok (t, record { id = id; user_id = user_id; requested_at = now; approved_at = none }))

  -- `invalidate_user_auth`.
  unfoldable pub invalidate_user_auth : Text → Time → Tables → Result AuthError Tables
  unfolding advance_epochs
  invalidate_user_auth user_id now t = do
    t1 ← statement db 1094 (advance_epochs (λ u. u.id == user_id) now t)
    t2 ← statement db 1104 (
        ok (record t1 {
          sessions =
              update (λ s. s.user_id == user_id && is_null s.revoked_at)
                (λ s. record s { revoked_at = some now }) t1.sessions;
        }))
    t3 ← statement db 1113 (
        ok (record t2 {
          ceremonies =
              update (λ c. is_of user_id c.user_id && is_null c.consumed_at) (consume_ceremony now)
                t2.ceremonies;
        }))
    statement db 1122 (
        ok (record t3 {
          capabilities =
              update (λ c. c.user_id == user_id && is_null c.consumed_at) (consume_capability now)
                t3.capabilities;
        }))

  -- The body of `approve_recovery`; `print` is the text of a `Uuid`.
  unfoldable pub approve_request :
      (Uuid → Text) → Uuid → UserId → Time → Tables → Result AuthError (Tables × Unit {0})
  unfolding insert_audit invalidate_user_auth user_exists
  approve_request print recovery_id operator_id now t = do
    row ← statement db 954 (elim (find (is_pending_request recovery_id) t.recoveries) [
      | none ↦ ok none
      | some r ↦ if user_exists operator_id t then ok (some r) else err store_failed
    ])
    r ← ok_or conflict row
    let t1 : Tables = record t {
      recoveries =
          update (is_pending_request recovery_id)
            (λ r. record r { approved_at = some now; approved_by = some operator_id }) t.recoveries;
    }
    t2 ← invalidate_user_auth r.user_id now t1
    subject ← or_store (new_id r.user_id)
    t3 ←
        insert_audit db
          (record {
            event_type = bytes "recovery.approved";
            actor_user_id = some operator_id;
            subject_user_id = some subject;
            data_value = object (field (bytes "recovery_id") (uuid_value print recovery_id) end);
          })
          now t2
    ok (t3, tt)

  -- `approve_recovery`.
  unfoldable pub approve_recovery :
      (Uuid → Text) → Uuid → UserId → Time → Tables → Tables × Result AuthError (Unit {0})
  approve_recovery print recovery_id operator_id now t =
      transaction db 953 979 t (approve_request print recovery_id operator_id now t)

  -- The body of `issue_recovery_setup`.
  unfoldable pub issue :
      (Uuid → Text)
      → Uuid
      → Capability
      → UserId
      → Time
      → Tables
      → Result AuthError (Tables × Unit {0})
  unfolding insert_audit
  issue print recovery_id capability operator_id now t = do
    t1 ← statement db 990 (
        if affects_one (is_approved_request recovery_id capability.user_id) t.recoveries
        then ok (record t {
          recoveries =
              update (is_approved_request recovery_id capability.user_id)
                (λ r. record r { setup_issued_at = some now }) t.recoveries;
        })
        else err conflict)
    t2 ← statement db 1005 (insert_or_store (add_capability capability db.clock t1))
    t3 ←
        insert_audit db
          (record {
            event_type = bytes "recovery.setup_issued";
            actor_user_id = some operator_id;
            subject_user_id = some capability.user_id;
            data_value = object (field (bytes "recovery_id") (uuid_value print recovery_id) end);
          })
          now t2
    ok (t3, tt)

  -- `issue_recovery_setup`.
  unfoldable pub issue_recovery_setup :
      (Uuid → Text)
      → Uuid
      → Capability
      → UserId
      → Time
      → Tables
      → Tables × Result AuthError (Unit {0})
  issue_recovery_setup print recovery_id capability operator_id now t =
      transaction db 989 1029 t (issue print recovery_id capability operator_id now t)

  -- The body of `break_glass`.
  unfoldable pub open_window :
      (Uuid → Text)
      → Uuid
      → Capability
      → Time
      → Text
      → Tables
      → Result AuthError (Tables × Unit {0})
  unfolding insert_audit invalidate_user_auth
  open_window print credential_id capability now reason t = do
    row ← statement db 1040 (ok (find (is_operator_credential credential_id t.users) t.credentials))
    c ← ok_or conflict row
    let t1 : Tables = record t {
      credentials =
          update (is_operator_credential credential_id t.users)
            (λ c. record c { revoked_at = some now }) t.credentials;
    }
    _ ← (if capability.user_id == c.user_id then ok (tt {0}) else err forbidden)
    t2 ← invalidate_user_auth c.user_id now t1
    t3 ← statement db 1058 (insert_or_store (add_capability capability db.clock t2))
    t4 ←
        insert_audit db
          (record {
            event_type = bytes "operator.break_glass_opened";
            actor_user_id = none;
            subject_user_id = some capability.user_id;
            data_value = object (
                field (bytes "credential_id") (uuid_value print credential_id)
                  (field (bytes "reason") (string reason) end));
          })
          now t3
    ok (t4, tt)

  -- `break_glass`.
  unfoldable pub break_glass :
      (Uuid → Text)
      → Uuid
      → Capability
      → Time
      → Text
      → Tables
      → Tables × Result AuthError (Unit {0})
  break_glass print credential_id capability now reason t =
      transaction db 1039 1085 t (open_window print credential_id capability now reason t)
