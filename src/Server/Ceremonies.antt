-- ===== src/Server/Ceremonies.antt =====
-- Capabilities and ceremonies in server/src/repository.rs: what is stored for a ceremony, and the
-- two transactions that complete one. Fresh ids are arguments. The advisory lock of a registration
-- is a statement that may fail; each transaction is one step here.
use rs_console.Common.{
  Bool, false, not, ◌&&◌, Option, none, some, if◌then◌else◌, Text, bytes, ◌==◌, nat_eq, text_eq,
  bool_eq, length, find, Result, ◌>>=◌, ok, err,
}
use rs_console.Auth.Types.{
  Time, Uuid, SecretHash, VerifiedCredential, AuthenticationVerification, Ceremony, Capability,
  SessionRecord, AuditEvent, AuthError, invalid_state, unauthenticated, store_failed, conflict,
}
use rs_console.Server.Rows.{CredentialRow, CapabilityRow, CeremonyRow, RecoveryRow}
use rs_console.Server.Tables.{
  Tables, is_null, update, affects_one, add_capability, add_ceremony, add_credential, add_session,
  insert_or_store, insert_unique, insert_audit,
}
use rs_console.Server.Transaction.{Database, statement, transaction, single}
use rs_console.Server.Queries.{open_capability, open_ceremony, operator_credentials}

-- `SET consumed_at = now`.
abbrev pub consume_ceremony : Time → CeremonyRow → CeremonyRow
consume_ceremony now c = record c { consumed_at = some now }

abbrev pub consume_capability : Time → CapabilityRow → CapabilityRow
consume_capability now c = record c { consumed_at = some now }

-- The open ceremony with an id.
abbrev pub is_open : Uuid → Time → CeremonyRow → Bool
is_open id now c = c.id == id && open_ceremony now c

abbrev pub is_open_hash : SecretHash → Time → CapabilityRow → Bool
is_open_hash hash now c = c.token_hash == hash && open_capability now c

-- The columns `user_id` and `kind` of the row that is consumed, if one is; a null `user_id` is no
-- `String`.
unfoldable pub returned_user : Option CeremonyRow → Result AuthError (Text × Text)
returned_user none = err invalid_state
returned_user (some c) = elim c.user_id [
  | none ↦ err store_failed
  | some user_id ↦ ok (user_id, c.kind)
]

-- The recovery that a registration completes.
abbrev pub is_issued : Option Text → RecoveryRow → Bool
is_issued none r = false
is_issued (some user_id) r =
    r.user_id == user_id
    && not (is_null r.approved_at)
    && not (is_null r.setup_issued_at)
    && is_null r.completed_at

abbrev pub complete_recovery : Time → RecoveryRow → RecoveryRow
complete_recovery now r = record r { completed_at = some now }

module _ (db : Database) where
  -- `insert_capability`.
  unfoldable pub insert_capability : Capability → Tables → Tables × Result AuthError (Unit {0})
  insert_capability capability t =
      single db 397 t (do t ← insert_or_store (add_capability capability db.clock t); ok (t, tt))

  -- `insert_ceremony`.
  unfoldable pub insert_ceremony : Ceremony → Tables → Tables × Result AuthError (Unit {0})
  insert_ceremony ceremony t =
      single db 549 t (do t ← insert_or_store (add_ceremony ceremony t); ok (t, tt))

  -- A bootstrap is refused once an operator has a credential.
  unfoldable pub check_bootstrap : Text → Tables → Result AuthError (Unit {0})
  unfolding operator_credentials
  check_bootstrap kind t =
      if kind == bytes "operator_bootstrap"
      then statement db 618 (if length (operator_credentials t) == 0 then ok tt else err conflict)
      else ok tt

  -- The capability of a registration is consumed, if it has one.
  unfoldable pub use_capability : Option SecretHash → Time → Tables → Result AuthError Tables
  use_capability none now t = ok t
  use_capability (some hash) now t = statement db 633 (
      if affects_one (is_open_hash hash now) t.capabilities
      then ok (record t {
        capabilities = update (is_open_hash hash now) (consume_capability now) t.capabilities;
      })
      else err invalid_state)

  -- The body of `complete_registration`.
  unfoldable pub register :
      Uuid
      → Uuid
      → Option SecretHash
      → VerifiedCredential
      → Time
      → AuditEvent
      → Tables
      → Result AuthError (Tables × Unit {0})
  unfolding returned_user check_bootstrap use_capability insert_audit
  register id ceremony_id capability_hash credential now event t = do
    _ ← statement db 600 (ok (tt {0}))
    row ← statement db 604 (ok (find (is_open ceremony_id now) t.ceremonies))
    (user_id, kind) ← returned_user row
    let t1 : Tables = record t {
      ceremonies = update (is_open ceremony_id now) (consume_ceremony now) t.ceremonies;
    }
    _ ← check_bootstrap kind t1
    t2 ← use_capability capability_hash now t1
    t3 ← statement db 647 (insert_unique (add_credential id user_id credential now t2))
    t4 ← statement db 669 (
        ok (record t3 {
          recoveries =
              update (is_issued event.subject_user_id) (complete_recovery now) t3.recoveries;
        }))
    t5 ← insert_audit db event now t4
    ok (t5, tt)

  -- `complete_registration`.
  unfoldable pub complete_registration :
      Uuid
      → Uuid
      → Option SecretHash
      → VerifiedCredential
      → Time
      → AuditEvent
      → Tables
      → Tables × Result AuthError (Unit {0})
  complete_registration id ceremony_id capability_hash credential now event t =
      transaction db 599 681 t (register id ceremony_id capability_hash credential now event t)

  -- The open ceremony of an authentication.
  abbrev pub is_login : Uuid → Time → CeremonyRow → Bool
  is_login id now c = is_open id now c && c.kind == bytes "authentication"

  abbrev pub is_used : AuthenticationVerification → Text → CredentialRow → Bool
  is_used verification user_id c =
      c.user_id == user_id && c.credential_id == verification.credential_id && is_null c.revoked_at

  -- The body of `complete_authentication`.
  unfoldable pub log_in :
      Uuid
      → AuthenticationVerification
      → SessionRecord
      → Time
      → AuditEvent
      → Tables
      → Result AuthError (Tables × Unit {0})
  unfolding insert_audit
  log_in ceremony_id verification session now event t = do
    t1 ← statement db 693 (
        if affects_one (is_login ceremony_id now) t.ceremonies
        then ok (record t {
          ceremonies = update (is_login ceremony_id now) (consume_ceremony now) t.ceremonies;
        })
        else err invalid_state)
    t2 ← statement db 707 (
        if affects_one (is_used verification session.user_id) t1.credentials
        then ok (record t1 {
          credentials =
              update (is_used verification session.user_id)
                (λ c. record c {
                  public_data = verification.updated_public_data;
                  last_used_at = some now;
                })
                t1.credentials;
        })
        else err unauthenticated)
    t3 ← statement db 723 (insert_or_store (add_session session now t2))
    t4 ← insert_audit db event now t3
    ok (t4, tt)

  -- `complete_authentication`.
  unfoldable pub complete_authentication :
      Uuid
      → AuthenticationVerification
      → SessionRecord
      → Time
      → AuditEvent
      → Tables
      → Tables × Result AuthError (Unit {0})
  complete_authentication ceremony_id verification session now event t =
      transaction db 692 741 t (log_in ceremony_id verification session now event t)
