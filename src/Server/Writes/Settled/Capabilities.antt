-- ===== src/Server/Writes/Settled/Capabilities.antt =====
-- Capabilities that are consumed in server/src/repository.rs stay so.
use rs_console.Common.{
  ◌≡◌, refl, sym, ap, subst, ◌≢◌, Bool, true, not, ◌||◌, some, List, arith, Text, ◌==◌, nat_eq,
  text_eq, bool_eq, ok,
}
use rs_console.Server.Calls.{StoreCall, run}
use rs_console.Server.Writes.Settled.{
  IsSettled, settles, settled-closed, Change, Change-IsSettled, fresh_differs, affects-any, kept,
  added, changed,
}
use rs_console.Server.Rows.{CapabilityRow}
use rs_console.Server.Transaction.{Database}
use rs_console.Auth.Types.{Time, Uuid, SecretHash, VerifiedCredential, AuditEvent}
use rs_console.Server.Tables.{
  Tables, is_null, update, affects_one, add_user, capability_row, add_capability, add_ceremony,
  add_credential, add_session, add_recovery, add_audit, insert_audit,
}
use rs_console.Server.Ceremonies.{
  consume_capability, is_open_hash, returned_user, use_capability, register, complete_registration,
}
use rs_console.Server.Writes.Keys.{same_capability, IsConsistent}
use rs_console.Server.Writes.{
  Write, user_added, epochs_advanced, credential_added, credential_used, credential_revoked,
  capability_added, capability_consumed, ceremony_added, ceremony_consumed, session_added,
  session_touched, session_revoked, recovery_added, recovery_approved, recovery_issued,
  recovery_completed, event_added,
}
use rs_console.Server.Writes.Runs.{run-keeps}
use rs_console.Server.Calls.Atomic.{transaction-ok}

abbrev has_hash : SecretHash → CapabilityRow → Bool
has_hash hash c = c.token_hash == hash

abbrev is_consumed : CapabilityRow → Bool
is_consumed c = not (is_null c.consumed_at)

write-capabilities :
    (hash : SecretHash) (t t' : Tables)
    → Write t t'
    → Change (has_hash hash) is_consumed t.capabilities t'.capabilities
unfolding add_user add_credential add_capability add_ceremony add_session add_recovery add_audit
write-capabilities hash t t' (user_added user now e) = kept (ground arith)
write-capabilities hash t t' (epochs_advanced p now e) = kept (ap (λ u. u.capabilities) e)
write-capabilities hash t t' (credential_added id user_id c now e) = kept (ground arith)
write-capabilities hash t t' (credential_used p value now e) = kept (ap (λ u. u.capabilities) e)
write-capabilities hash t t' (credential_revoked p now e) = kept (ap (λ u. u.capabilities) e)
write-capabilities hash t t' (capability_added c clock e) =
    added (capability_row c clock)
      (fresh_differs (has_hash hash) (λ d. d.id == c.id || d.token_hash == c.token_hash)
        (capability_row c clock) t.capabilities (λ r a b. ground arith) (ground arith))
      (ground arith)
write-capabilities hash t t' (capability_consumed p now e) =
    changed p (consume_capability now) (λ c. refl) (λ c h. refl) (ap (λ u. u.capabilities) e)
write-capabilities hash t t' (ceremony_added c e) = kept (ground arith)
write-capabilities hash t t' (ceremony_consumed p now e) = kept (ap (λ u. u.capabilities) e)
write-capabilities hash t t' (session_added s now e) = kept (ground arith)
write-capabilities hash t t' (session_touched p id csrf_hash idle now e) =
    kept (ap (λ u. u.capabilities) e)
write-capabilities hash t t' (session_revoked p now e) = kept (ap (λ u. u.capabilities) e)
write-capabilities hash t t' (recovery_added id user_id now e) = kept (ground arith)
write-capabilities hash t t' (recovery_approved id now operator_id e) =
    kept (ap (λ u. u.capabilities) e)
write-capabilities hash t t' (recovery_issued id user_id now e) = kept (ap (λ u. u.capabilities) e)
write-capabilities hash t t' (recovery_completed user_id now e) = kept (ap (λ u. u.capabilities) e)
write-capabilities hash t t' (event_added e now h) = kept (ground arith)

pub run-IsConsumed :
    (hash : SecretHash) (print : Uuid → Text) (calls : List (Database × Time × StoreCall))
    (t : Tables)
    → IsSettled (has_hash hash) is_consumed t.capabilities
    → IsSettled (has_hash hash) is_consumed (run print calls t).capabilities
run-IsConsumed hash =
    run-keeps (λ t. IsSettled (has_hash hash) is_consumed t.capabilities)
      (λ t t' w. Change-IsSettled (has_hash hash) is_consumed _ _ (write-capabilities hash t t' w))

register-uses :
    (db : Database) (i id : Uuid) (hash : SecretHash) (c : VerifiedCredential) (now : Time)
    (e : AuditEvent) (t t' : Tables)
    → register db i id (some hash) c now e t ≡ ok (t', tt)
    → (affects_one (is_open_hash hash now) t.capabilities ≡ true)
      × (t'.capabilities ≡ update (is_open_hash hash now) (consume_capability now) t.capabilities)
unfolding register use_capability returned_user insert_audit add_audit add_credential
register-uses db i id hash c now e t t' h = (ground arith, ground arith)

register-IsConsumed :
    (db : Database) (i id : Uuid) (hash : SecretHash) (c : VerifiedCredential) (now : Time)
    (e : AuditEvent) (t t' : Tables)
    → IsConsistent t
    → register db i id (some hash) c now e t ≡ ok (t', tt)
    → IsSettled (has_hash hash) is_consumed t'.capabilities
register-IsConsumed db i id hash c now e t t' h k =
    let (one, after) = register-uses db i id hash c now e t t' k in
    subst (IsSettled (has_hash hash) is_consumed) (sym after) (
      settles same_capability (has_hash hash) is_consumed (is_open_hash hash now)
        (consume_capability now) t.capabilities (λ r r' a b. ground arith) (λ r. refl)
        (λ r a. ground arith) (λ r. refl) h.capabilities.0
        (affects-any (is_open_hash hash now) t.capabilities one))

-- A registration that a capability allows uses it up: once one is completed with it, none is ever
-- completed with it again, for any ceremony and any credential, after any further calls of the
-- store, at any time.
pub capability_used_once :
    (db : Database) (i id : Uuid) (hash : SecretHash) (c : VerifiedCredential) (now : Time)
    (e : AuditEvent) (t : Tables)
    → IsConsistent t
    → (complete_registration db i id (some hash) c now e t).1 ≡ ok tt
    → (print : Uuid → Text) (calls : List (Database × Time × StoreCall)) (db' : Database)
      (i' id' : Uuid) (c' : VerifiedCredential) (now' : Time) (e' : AuditEvent)
    → (complete_registration db' i' id'
        (some hash)
        c'
        now'
        e'
        (run print calls (complete_registration db i id (some hash) c now e t).0)).1
      ≢ ok tt
unfolding complete_registration
capability_used_once db i id hash c now e t h k print calls db' i' id' c' now' e' again =
    let first = transaction-ok db 599 681 t (register db i id (some hash) c now e t) tt k in
    let later = run print calls (complete_registration db i id (some hash) c now e t).0 in
    let spent =
      run-IsConsumed hash print calls _ (register-IsConsumed db i id hash c now e t _ h first) in
    let closed =
      settled-closed (has_hash hash) is_consumed (is_open_hash hash now') later.capabilities
        (λ r a. (ground arith, ground arith)) spent.1 in
    let (one, after) =
      register-uses db' i' id' hash c' now' e' later _
        (transaction-ok db' 599 681 later _ tt again) in
    let found = affects-any (is_open_hash hash now') later.capabilities one in cc
