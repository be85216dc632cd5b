-- ===== src/Server/Users.antt =====
-- Users in server/src/repository.rs: their insertion, and the rotation of all epochs.
use rs_console.Common.{
  ℕ, ◌+◌, ◌-◌, ◌^◌, Bool, true, ◌&&◌, ◌||◌, none, some, leb, if◌then◌else◌, Text, bytes, ◌==◌,
  nat_eq, text_eq, bool_eq, length, any, Result, ◌>>=◌, ok, err,
}
use rs_console.Policy.Ids.{UserId}
use rs_console.Policy.Canonical.{Json, number, string, object, end, field}
use rs_console.Auth.Types.{Time, Uuid, User, Capability, AuditEvent, AuthError, store_failed}
use rs_console.Server.Rows.{UserRow}
use rs_console.Server.Tables.{
  Tables, is_null, update, add_user, add_capability, insert_or_store, insert_constrained,
  insert_audit,
}
use rs_console.Server.Transaction.{Database, statement, transaction}
use rs_console.Server.Ceremonies.{consume_ceremony, consume_capability}
use rs_console.Common.Decimal.{print_nat}

-- The greatest `bigint`.
abbrev pub i64_max : ℕ
i64_max = 2 ^ 63 - 1

-- `SET auth_epoch = auth_epoch + 1, updated_at = now`, which fails where an epoch is the greatest.
abbrev pub advance_epoch : Time → UserRow → UserRow
advance_epoch now u = record u { auth_epoch = u.auth_epoch + 1; updated_at = now }

unfoldable pub advance_epochs : (UserRow → Bool) → Time → Tables → Result AuthError Tables
advance_epochs where_ now t =
    if any (λ u. where_ u && leb i64_max u.auth_epoch) t.users
    then err store_failed
    else ok (record t { users = update where_ (advance_epoch now) t.users })

-- A `Value` for the id of a capability, a credential or a recovery.
abbrev pub uuid_value : (Uuid → Text) → Uuid → Json
uuid_value print id = string (print id)

-- The rows of `RETURNING 1`, whose column is of type INT4, fetched by `query_scalar::<_, i64>`.
unfoldable pub fetch_ones : Database → ℕ → Result AuthError (Unit {0})
fetch_ones db rows = if rows == 0 || db.decodes_int4_as_i64 then ok tt else err store_failed

module _ (db : Database) where
  -- The body of `insert_user`.
  unfoldable pub seed : User → Time → AuditEvent → Tables → Result AuthError (Tables × Unit {0})
  unfolding insert_audit
  seed user now event t = do
    t1 ← statement db 420 (insert_constrained (add_user user now t))
    t2 ← insert_audit db event now t1
    ok (t2, tt)

  -- `insert_user`.
  unfoldable pub insert_user :
      User → Time → AuditEvent → Tables → Tables × Result AuthError (Unit {0})
  insert_user user now event t = transaction db 419 443 t (seed user now event t)

  -- The body of `approve_user_with_setup`; `print` is the text of a `Uuid`.
  unfoldable pub approve :
      (Uuid → Text)
      → User
      → Capability
      → UserId
      → Time
      → Tables
      → Result AuthError (Tables × Unit {0})
  unfolding insert_audit
  approve print user capability operator_id now t = do
    t1 ← statement db 454 (insert_constrained (add_user user now t))
    t2 ← statement db 476 (insert_or_store (add_capability capability db.clock t1))
    t3 ←
        insert_audit db
          (record {
            event_type = bytes "user.approved_with_setup";
            actor_user_id = some operator_id;
            subject_user_id = some user.id;
            data_value =
                object (field (bytes "capability_id") (uuid_value print capability.id) end);
          })
          now t2
    ok (t3, tt)

  -- `approve_user_with_setup`.
  unfoldable pub approve_user_with_setup :
      (Uuid → Text)
      → User
      → Capability
      → UserId
      → Time
      → Tables
      → Tables × Result AuthError (Unit {0})
  approve_user_with_setup print user capability operator_id now t =
      transaction db 453 500 t (approve print user capability operator_id now t)

  -- The body of `rotate_all_auth_epochs`.
  unfoldable pub rotate : Time → Text → Tables → Result AuthError (Tables × ℕ)
  unfolding insert_audit advance_epochs fetch_ones
  rotate now reason t = do
    t1 ← statement db 509 (advance_epochs (λ u. true) now t)
    _ ← fetch_ones db (length t.users)
    t2 ← statement db 518 (
        ok (record t1 {
          sessions =
              update (λ s. is_null s.revoked_at) (λ s. record s { revoked_at = some now })
                t1.sessions;
        }))
    t3 ← statement db 523 (
        ok (record t2 {
          ceremonies = update (λ c. is_null c.consumed_at) (consume_ceremony now) t2.ceremonies;
        }))
    t4 ← statement db 528 (
        ok (record t3 {
          capabilities =
              update (λ c. is_null c.consumed_at) (consume_capability now) t3.capabilities;
        }))
    t5 ←
        insert_audit db
          (record {
            event_type = bytes "auth.epoch_rotated_all";
            actor_user_id = none;
            subject_user_id = none;
            data_value = object (
                field (bytes "reason") (string reason)
                  (field (bytes "users") (number (print_nat (length t.users))) end));
          })
          now t4
    ok (t5, length t.users)

  -- `rotate_all_auth_epochs`.
  unfoldable pub rotate_all_auth_epochs : Time → Text → Tables → Tables × Result AuthError ℕ
  rotate_all_auth_epochs now reason t = transaction db 508 544 t (rotate now reason t)
