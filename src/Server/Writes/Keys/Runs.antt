-- ===== src/Server/Writes/Keys/Runs.antt =====
-- Runs of calls of server/src/repository.rs against the constraints of the tables.
use rs_console.Common.{
  ◌≡◌, refl, sym, subst, Bool, true, false, Option, none, some, List, arith, Text,
}
use rs_console.Server.Calls.{StoreCall, run}
use rs_console.Server.Writes.Keys.{
  same_credential, same_capability, same_ceremony, same_session, same_recovery, credential_allowed,
  capability_allowed, ceremony_allowed, session_allowed, recovery_allowed, IsConsistent,
  set_credentials, set_capabilities, set_ceremonies, set_sessions, set_recoveries,
}
use rs_console.Server.Rows.{UserRow, SessionRow, RecoveryRow}
use rs_console.Server.Tables.{Tables, update, is_pending}
use rs_console.Auth.Types.{Time, Uuid, SecretHash}
use rs_console.Server.Transaction.{Database}
use rs_console.Server.Writes.Distinct.{Keeps, update-IsRows}
use rs_console.Server.Writes.{
  revoke_session, revoke_credential, use_credential, approve_row, issue_row, Write, user_added,
  epochs_advanced, credential_added, credential_used, credential_revoked, capability_added,
  capability_consumed, ceremony_added, ceremony_consumed, session_added, session_touched,
  session_revoked, recovery_added, recovery_approved, recovery_issued, recovery_completed,
  event_added,
}
use rs_console.Server.Sessions.{touch}
use rs_console.Server.Writes.Keys.Keep.{add_user-IsConsistent, advance-IsConsistent}
use rs_console.Server.Writes.Runs.{run-keeps}
use rs_console.Server.Writes.Keys.Added.{
  add_capability-IsConsistent, add_ceremony-IsConsistent, add_credential-IsConsistent,
  add_session-IsConsistent, add_recovery-IsConsistent, add_audit-IsConsistent,
}
use rs_console.Server.Ceremonies.{
  consume_ceremony, consume_capability, is_issued, complete_recovery,
}
use rs_console.Server.Recoveries.{is_pending_request, is_approved_request}

-- An update that changes no key, nor what a row refers to.
touch-Keeps :
    (id : Uuid) (csrf_hash : Option SecretHash) (idle now : Time)
    → Keeps same_session (touch id csrf_hash idle now)
touch-Keeps id none idle now s r h = (h, h, h)
touch-Keeps id (some csrf_hash) idle now s r h = (h, h, h)

touch-allowed :
    (users : List UserRow) (id : Uuid) (csrf_hash : Option SecretHash) (idle now : Time)
    (s : SessionRow)
    → session_allowed users s ≡ true
    → session_allowed users (touch id csrf_hash idle now s) ≡ true
touch-allowed users id none idle now s h = h
touch-allowed users id (some csrf_hash) idle now s h = h

-- A change of a recovery by which it is not pending, or is as it was.
decided-Keeps :
    (set : RecoveryRow → RecoveryRow)
    → ((r : RecoveryRow) → (set r).id ≡ r.id)
    → ((r : RecoveryRow) → (set r).user_id ≡ r.user_id)
    → ((r : RecoveryRow) → is_pending r ≡ false → is_pending (set r) ≡ false)
    → Keeps same_recovery set
decided-Keeps set f g k r s h = (
  ground (arith, f s, g s, k s),
  ground (arith, f r, g r, k r),
  ground (arith, f r, g r, k r, f s, g s, k s),
)

update_recoveries :
    (t t' : Tables) (p : RecoveryRow → Bool) (set : RecoveryRow → RecoveryRow)
    → ((r : RecoveryRow) → (set r).id ≡ r.id)
    → ((r : RecoveryRow) → (set r).user_id ≡ r.user_id)
    → ((r : RecoveryRow) → is_pending r ≡ false → is_pending (set r) ≡ false)
    → t' ≡ record t { recoveries = update p set t.recoveries }
    → IsConsistent t
    → IsConsistent t'
update_recoveries t t' p set f g k e h = subst IsConsistent (sym e) (
    set_recoveries t _ h (
      update-IsRows same_recovery (recovery_allowed t.users) p set t.recoveries
        (decided-Keeps set f g k) (λ r a. ground (arith, g r)) h.recoveries))

-- A write keeps the constraints.
Write-IsConsistent : (t t' : Tables) → Write t t' → IsConsistent t → IsConsistent t'
Write-IsConsistent t t' (user_added user now e) h = add_user-IsConsistent user now t t' e h
Write-IsConsistent t t' (epochs_advanced p now e) h =
    subst IsConsistent (sym e) (advance-IsConsistent p now t h)
Write-IsConsistent t t' (credential_added id user_id c now e) h =
    add_credential-IsConsistent id user_id c now t t' e h
Write-IsConsistent t t' (credential_used p value now e) h = subst IsConsistent (sym e) (
    set_credentials t _ h (
      update-IsRows same_credential (credential_allowed t.users) p (use_credential value now)
        t.credentials (λ c d k. (k, k, k)) (λ c k. k) h.credentials))
Write-IsConsistent t t' (credential_revoked p now e) h = subst IsConsistent (sym e) (
    set_credentials t _ h (
      update-IsRows same_credential (credential_allowed t.users) p (revoke_credential now)
        t.credentials (λ c d k. (k, k, k)) (λ c k. k) h.credentials))
Write-IsConsistent t t' (capability_added c clock e) h =
    add_capability-IsConsistent c clock t t' e h
Write-IsConsistent t t' (capability_consumed p now e) h = subst IsConsistent (sym e) (
    set_capabilities t _ h (
      update-IsRows same_capability (capability_allowed t.users) p (consume_capability now)
        t.capabilities (λ c d k. (k, k, k)) (λ c k. k) h.capabilities))
Write-IsConsistent t t' (ceremony_added c e) h = add_ceremony-IsConsistent c t t' e h
Write-IsConsistent t t' (ceremony_consumed p now e) h = subst IsConsistent (sym e) (
    set_ceremonies t _ h (
      update-IsRows same_ceremony (ceremony_allowed t.users) p (consume_ceremony now) t.ceremonies
        (λ c d k. (k, k, k)) (λ c k. k) h.ceremonies))
Write-IsConsistent t t' (session_added s now e) h = add_session-IsConsistent s now t t' e h
Write-IsConsistent t t' (session_touched p id csrf_hash idle now e) h = subst IsConsistent (sym e) (
    set_sessions t _ h (
      update-IsRows same_session (session_allowed t.users) p (touch id csrf_hash idle now)
        t.sessions (touch-Keeps id csrf_hash idle now) (touch-allowed t.users id csrf_hash idle now)
        h.sessions))
Write-IsConsistent t t' (session_revoked p now e) h = subst IsConsistent (sym e) (
    set_sessions t _ h (
      update-IsRows same_session (session_allowed t.users) p (revoke_session now) t.sessions
        (λ s r k. (k, k, k)) (λ s k. k) h.sessions))
Write-IsConsistent t t' (recovery_added id user_id now e) h =
    add_recovery-IsConsistent id user_id now t t' e h
Write-IsConsistent t t' (recovery_approved id now operator_id e) h =
    update_recoveries t t' (is_pending_request id) (approve_row now operator_id) (λ r. refl)
      (λ r. refl) (λ r k. ground arith) e h
Write-IsConsistent t t' (recovery_issued id user_id now e) h =
    update_recoveries t t' (is_approved_request id user_id) (issue_row now) (λ r. refl) (λ r. refl)
      (λ r k. k) e h
Write-IsConsistent t t' (recovery_completed user_id now e) h =
    update_recoveries t t' (is_issued user_id) (complete_recovery now) (λ r. refl) (λ r. refl)
      (λ r k. ground arith) e h
Write-IsConsistent t t' (event_added e now k) h = add_audit-IsConsistent e now t t' k h

-- Whatever is called, in any order, with any arguments, and whatever fails: from tables that meet
-- the constraints the store gets to tables that meet them, although its updates check none. No two
-- users share an id, a handle or an email, no two credentials an id or a credential id, no two
-- capabilities or sessions an id or a token's hash, no two ceremonies an id, no two recoveries an
-- id, and no user has two that are pending; an epoch is positive, the hash of a token has 32 bytes,
-- and the user that a credential, a capability, a ceremony, a session or a recovery names is there.
pub run-IsConsistent :
    (print : Uuid → Text) (calls : List (Database × Time × StoreCall)) (t : Tables)
    → IsConsistent t
    → IsConsistent (run print calls t)
run-IsConsistent = run-keeps IsConsistent Write-IsConsistent
