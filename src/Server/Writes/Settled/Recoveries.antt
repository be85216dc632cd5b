-- ===== src/Server/Writes/Settled/Recoveries.antt =====
-- Recoveries that are approved or have a setup issued in server/src/repository.rs stay so.
use rs_console.Common.{
  ◌≡◌, refl, sym, ap, subst, ◌≢◌, inl, inr, Bool, true, not, ◌&&◌, ◌||◌, List, arith, Text, ◌==◌,
  nat_eq, text_eq, bool_eq, Option-cases, any, find, ok,
}
use rs_console.Server.Calls.{StoreCall, run}
use rs_console.Server.Writes.Settled.{
  IsSettled, settles, settled-closed, Change, Change-IsSettled, fresh_differs, affects-any,
  find-any, kept, added, changed,
}
use rs_console.Server.Rows.{RecoveryRow}
use rs_console.Auth.Types.{Time, Uuid, Capability}
use rs_console.Server.Tables.{
  Tables, is_null, update, affects_one, add_user, add_capability, add_ceremony, add_credential,
  add_session, is_pending, add_recovery, add_audit, insert_audit,
}
use rs_console.Server.Recoveries.{
  is_pending_request, is_approved_request, invalidate_user_auth, approve_request, approve_recovery,
  issue, issue_recovery_setup,
}
use rs_console.Server.Transaction.{Database}
use rs_console.Server.Writes.Keys.{same_recovery, IsConsistent}
use rs_console.Server.Writes.{
  approve_row, issue_row, Write, user_added, epochs_advanced, credential_added, credential_used,
  credential_revoked, capability_added, capability_consumed, ceremony_added, ceremony_consumed,
  session_added, session_touched, session_revoked, recovery_added, recovery_approved,
  recovery_issued, recovery_completed, event_added,
}
use rs_console.Server.Users.{advance_epochs}
use rs_console.Policy.Ids.{UserId}
use rs_console.Server.Ceremonies.{is_issued, complete_recovery}
use rs_console.Server.Writes.Keys.Added.{recovery_row}
use rs_console.Server.Writes.Runs.{run-keeps}
use rs_console.Server.Calls.Atomic.{transaction-ok}

abbrev has_id : Uuid → RecoveryRow → Bool
has_id id r = r.id == id

abbrev is_approved : RecoveryRow → Bool
is_approved r = not (is_null r.approved_at)

abbrev has_setup : RecoveryRow → Bool
has_setup r = not (is_null r.setup_issued_at)

-- What no decision on a recovery undoes.
abbrev Lasts : (RecoveryRow → Bool) → Type 0
Lasts settled =
    (r : RecoveryRow)
    → settled r ≡ true
    → ((now : Time) (o : Text) → settled (approve_row now o r) ≡ true)
      × ((now : Time) → settled (issue_row now r) ≡ true)
      × ((now : Time) → settled (complete_recovery now r) ≡ true)

is_approved-Lasts : Lasts is_approved
is_approved-Lasts r h = ((λ now o. refl), (λ now. h), (λ now. h))

has_setup-Lasts : Lasts has_setup
has_setup-Lasts r h = ((λ now o. h), (λ now. refl), (λ now. h))

write-recoveries :
    (i : Uuid) (settled : RecoveryRow → Bool) (lasts : Lasts settled) (t t' : Tables)
    → Write t t'
    → Change (has_id i) settled t.recoveries t'.recoveries
unfolding add_user add_credential add_capability add_ceremony add_session add_recovery add_audit
write-recoveries i settled lasts t t' (user_added user now e) = kept (ground arith)
write-recoveries i settled lasts t t' (epochs_advanced p now e) = kept (ap (λ u. u.recoveries) e)
write-recoveries i settled lasts t t' (credential_added id user_id c now e) = kept (ground arith)
write-recoveries i settled lasts t t' (credential_used p value now e) =
    kept (ap (λ u. u.recoveries) e)
write-recoveries i settled lasts t t' (credential_revoked p now e) = kept (ap (λ u. u.recoveries) e)
write-recoveries i settled lasts t t' (capability_added c clock e) = kept (ground arith)
write-recoveries i settled lasts t t' (capability_consumed p now e) =
    kept (ap (λ u. u.recoveries) e)
write-recoveries i settled lasts t t' (ceremony_added c e) = kept (ground arith)
write-recoveries i settled lasts t t' (ceremony_consumed p now e) = kept (ap (λ u. u.recoveries) e)
write-recoveries i settled lasts t t' (session_added s now e) = kept (ground arith)
write-recoveries i settled lasts t t' (session_touched p id csrf_hash idle now e) =
    kept (ap (λ u. u.recoveries) e)
write-recoveries i settled lasts t t' (session_revoked p now e) = kept (ap (λ u. u.recoveries) e)
write-recoveries i settled lasts t t' (recovery_added id user_id now e) =
    added (recovery_row id user_id now)
      (fresh_differs (has_id i) (λ r. r.id == id || r.user_id == user_id && is_pending r)
        (recovery_row id user_id now) t.recoveries (λ r a b. ground arith) (ground arith))
      (ground arith)
write-recoveries i settled lasts t t' (recovery_approved id now operator_id e) =
    changed (is_pending_request id) (approve_row now operator_id) (λ r. refl)
      (λ r h. (lasts r h).0 now operator_id) (ap (λ u. u.recoveries) e)
write-recoveries i settled lasts t t' (recovery_issued id user_id now e) =
    changed (is_approved_request id user_id) (issue_row now) (λ r. refl) (λ r h. (lasts r h).1 now)
      (ap (λ u. u.recoveries) e)
write-recoveries i settled lasts t t' (recovery_completed user_id now e) =
    changed (is_issued user_id) (complete_recovery now) (λ r. refl) (λ r h. (lasts r h).2 now)
      (ap (λ u. u.recoveries) e)
write-recoveries i settled lasts t t' (event_added e now h) = kept (ground arith)

pub run-IsSettled :
    (i : Uuid) (settled : RecoveryRow → Bool) (lasts : Lasts settled) (print : Uuid → Text)
    (calls : List (Database × Time × StoreCall)) (t : Tables)
    → IsSettled (has_id i) settled t.recoveries
    → IsSettled (has_id i) settled (run print calls t).recoveries
run-IsSettled i settled lasts =
    run-keeps (λ t. IsSettled (has_id i) settled t.recoveries)
      (λ t t' w. Change-IsSettled (has_id i) settled _ _ (write-recoveries i settled lasts t t' w))

-- What an update of the recoveries with an id settles, in tables that meet the constraints.
recovery-settles :
    (i : Uuid) (settled where_ : RecoveryRow → Bool) (set : RecoveryRow → RecoveryRow) (t : Tables)
    → ((r : RecoveryRow) → has_id i (set r) ≡ has_id i r)
    → ((r : RecoveryRow) → where_ r ≡ true → has_id i r ≡ true)
    → ((r : RecoveryRow) → settled (set r) ≡ true)
    → IsConsistent t
    → any where_ t.recoveries ≡ true
    → IsSettled (has_id i) settled (update where_ set t.recoveries)
recovery-settles i settled where_ set t f g k h found =
    settles same_recovery (has_id i) settled where_ set t.recoveries (λ r r' a b. ground arith) f g
      k h.recoveries.0 found

approve_request-changes :
    (db : Database) (print : Uuid → Text) (i : Uuid) (o : UserId) (now : Time) (t t' : Tables)
    → approve_request db print i o now t ≡ ok (t', tt)
    → (any (is_pending_request i) t.recoveries ≡ true)
      × (t'.recoveries ≡ update (is_pending_request i) (approve_row now o) t.recoveries)
unfolding approve_request insert_audit add_audit invalidate_user_auth advance_epochs
approve_request-changes db print i o now t t' h =
    elim (Option-cases (find (is_pending_request i) t.recoveries)) [
      | inl e ↦ absurd (ground arith)
      | inr (r, e) ↦ (find-any (is_pending_request i) t.recoveries r e, ground arith)
    ]

issue-changes :
    (db : Database) (print : Uuid → Text) (i : Uuid) (c : Capability) (o : UserId) (now : Time)
    (t t' : Tables)
    → issue db print i c o now t ≡ ok (t', tt)
    → (affects_one (is_approved_request i c.user_id) t.recoveries ≡ true)
      × (t'.recoveries ≡ update (is_approved_request i c.user_id) (issue_row now) t.recoveries)
unfolding issue insert_audit add_audit add_capability
issue-changes db print i c o now t t' h = (ground arith, ground arith)

-- A request for recovery is approved once at most: after it is approved, no operator approves it
-- again, after any further calls of the store, at any time.
pub approve_recovery_once :
    (db : Database) (print : Uuid → Text) (i : Uuid) (o : UserId) (now : Time) (t : Tables)
    → IsConsistent t
    → (approve_recovery db print i o now t).1 ≡ ok tt
    → (calls : List (Database × Time × StoreCall)) (db' : Database) (o' : UserId) (now' : Time)
    → (approve_recovery db' print i o' now'
        (run print calls (approve_recovery db print i o now t).0)).1
      ≢ ok tt
unfolding approve_recovery
approve_recovery_once db print i o now t h k calls db' o' now' again =
    let later = run print calls (approve_recovery db print i o now t).0 in
    let (found, after) =
      approve_request-changes db print i o now t _ (transaction-ok db 953 979 t _ tt k) in
    let settled = run-IsSettled i is_approved is_approved-Lasts print calls _ (
      subst (IsSettled (has_id i) is_approved) (sym after) (
        recovery-settles i is_approved (is_pending_request i) (approve_row now o) t (λ r. refl)
          (λ r a. ground arith) (λ r. refl) h found)) in
    let closed =
      settled-closed (has_id i) is_approved (is_pending_request i) later.recoveries
        (λ r a. (ground arith, ground arith)) settled.1 in
    let (again_found, after_again) =
      approve_request-changes db' print i o' now' later _
        (transaction-ok db' 953 979 later _ tt again) in
    cc

-- A setup is issued once at most for a recovery: after one is, none is issued for it again, with
-- any capability, after any further calls of the store, at any time.
pub issue_recovery_setup_once :
    (db : Database) (print : Uuid → Text) (i : Uuid) (c : Capability) (o : UserId) (now : Time)
    (t : Tables)
    → IsConsistent t
    → (issue_recovery_setup db print i c o now t).1 ≡ ok tt
    → (calls : List (Database × Time × StoreCall)) (db' : Database) (c' : Capability) (o' : UserId)
      (now' : Time)
    → (issue_recovery_setup db' print i c' o' now'
        (run print calls (issue_recovery_setup db print i c o now t).0)).1
      ≢ ok tt
unfolding issue_recovery_setup
issue_recovery_setup_once db print i c o now t h k calls db' c' o' now' again =
    let later = run print calls (issue_recovery_setup db print i c o now t).0 in
    let (one, after) = issue-changes db print i c o now t _ (transaction-ok db 989 1029 t _ tt k) in
    let settled = run-IsSettled i has_setup has_setup-Lasts print calls _ (
      subst (IsSettled (has_id i) has_setup) (sym after) (
        recovery-settles i has_setup (is_approved_request i c.user_id) (issue_row now) t (λ r. refl)
          (λ r a. ground arith) (λ r. refl) h
          (affects-any (is_approved_request i c.user_id) t.recoveries one))) in
    let closed =
      settled-closed (has_id i) has_setup (is_approved_request i c'.user_id) later.recoveries
        (λ r a. (ground arith, ground arith)) settled.1 in
    let (one_again, after_again) =
      issue-changes db' print i c' o' now' later _ (transaction-ok db' 989 1029 later _ tt again) in
    let found = affects-any (is_approved_request i c'.user_id) later.recoveries one_again in cc
