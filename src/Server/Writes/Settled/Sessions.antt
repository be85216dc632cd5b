-- ===== src/Server/Writes/Settled/Sessions.antt =====
-- Sessions that are revoked in server/src/repository.rs stay so.
use rs_console.Common.{
  ◌≡◌, refl, sym, ap, subst, ◌≢◌, Bool, true, not, ◌&&◌, ◌||◌, Option, none, some, List, [], ◌∷◌,
  arith, Text, ◌==◌, nat_eq, text_eq, bool_eq, all, any, ok,
}
use rs_console.Server.Writes.Settled.{
  IsSettled, Change, Change-IsSettled, fresh_differs, kept, added, changed,
}
use rs_console.Auth.Types.{Time, Uuid, SecretHash, SessionPrincipal}
use rs_console.Server.Rows.{UserRow, SessionRow}
use rs_console.Server.Tables.{
  Tables, is_null, update, add_user, add_capability, add_ceremony, add_credential, add_session,
  add_recovery, add_audit,
}
use rs_console.Server.Writes.{
  revoke_session, Write, user_added, epochs_advanced, credential_added, credential_used,
  credential_revoked, capability_added, capability_consumed, ceremony_added, ceremony_consumed,
  session_added, session_touched, session_revoked, recovery_added, recovery_approved,
  recovery_issued, recovery_completed, event_added,
}
use rs_console.Server.Sessions.{valid_session, touch, resume_session, delete_session}
use rs_console.Server.Transaction.{Database}
use rs_console.Server.Writes.Keys.Added.{session_inserted}
use rs_console.Server.Calls.{StoreCall, run}
use rs_console.Server.Writes.Runs.{run-keeps}

abbrev pub has_token : SecretHash → SessionRow → Bool
has_token hash s = s.token_hash == hash

abbrev pub is_revoked : SessionRow → Bool
is_revoked s = not (is_null s.revoked_at)

touch-has_token :
    (hash : SecretHash) (id : Uuid) (csrf_hash : Option SecretHash) (idle now : Time)
    (s : SessionRow)
    → has_token hash (touch id csrf_hash idle now s) ≡ has_token hash s
touch-has_token hash id none idle now s = refl
touch-has_token hash id (some csrf_hash) idle now s = refl

touch-is_revoked :
    (id : Uuid) (csrf_hash : Option SecretHash) (idle now : Time) (s : SessionRow)
    → is_revoked s ≡ true
    → is_revoked (touch id csrf_hash idle now s) ≡ true
touch-is_revoked id none idle now s h = h
touch-is_revoked id (some csrf_hash) idle now s h = h

write-sessions :
    (hash : SecretHash) (t t' : Tables)
    → Write t t'
    → Change (has_token hash) is_revoked t.sessions t'.sessions
unfolding add_user add_credential add_capability add_ceremony add_session add_recovery add_audit
write-sessions hash t t' (user_added user now e) = kept (ground arith)
write-sessions hash t t' (epochs_advanced p now e) = kept (ap (λ u. u.sessions) e)
write-sessions hash t t' (credential_added id user_id c now e) = kept (ground arith)
write-sessions hash t t' (credential_used p value now e) = kept (ap (λ u. u.sessions) e)
write-sessions hash t t' (credential_revoked p now e) = kept (ap (λ u. u.sessions) e)
write-sessions hash t t' (capability_added c clock e) = kept (ground arith)
write-sessions hash t t' (capability_consumed p now e) = kept (ap (λ u. u.sessions) e)
write-sessions hash t t' (ceremony_added c e) = kept (ground arith)
write-sessions hash t t' (ceremony_consumed p now e) = kept (ap (λ u. u.sessions) e)
write-sessions hash t t' (session_added s now e) =
    added (session_inserted s now)
      (fresh_differs (has_token hash) (λ r. r.id == s.id || r.token_hash == s.token_hash)
        (session_inserted s now) t.sessions (λ r a b. ground arith) (ground arith))
      (ground arith)
write-sessions hash t t' (session_touched p id csrf_hash idle now e) =
    changed p (touch id csrf_hash idle now) (touch-has_token hash id csrf_hash idle now)
      (touch-is_revoked id csrf_hash idle now) (ap (λ u. u.sessions) e)
write-sessions hash t t' (session_revoked p now e) =
    changed p (revoke_session now) (λ s. refl) (λ s h. refl) (ap (λ u. u.sessions) e)
write-sessions hash t t' (recovery_added id user_id now e) = kept (ground arith)
write-sessions hash t t' (recovery_approved id now operator_id e) = kept (ap (λ u. u.sessions) e)
write-sessions hash t t' (recovery_issued id user_id now e) = kept (ap (λ u. u.sessions) e)
write-sessions hash t t' (recovery_completed user_id now e) = kept (ap (λ u. u.sessions) e)
write-sessions hash t t' (event_added e now h) = kept (ground arith)

pub run-IsRevoked :
    (hash : SecretHash) (print : Uuid → Text) (calls : List (Database × Time × StoreCall))
    (t : Tables)
    → IsSettled (has_token hash) is_revoked t.sessions
    → IsSettled (has_token hash) is_revoked (run print calls t).sessions
run-IsRevoked hash =
    run-keeps (λ t. IsSettled (has_token hash) is_revoked t.sessions)
      (λ t t' w. Change-IsSettled (has_token hash) is_revoked _ _ (write-sessions hash t t' w))

-- No session that is revoked is honoured.
pub revoked-valid_session :
    (hash : SecretHash) (now : Time) (users : List UserRow) (ss : List SessionRow)
    → all (λ s. not (has_token hash s) || is_revoked s) ss ≡ true
    → valid_session hash now users ss ≡ none
unfolding valid_session
revoked-valid_session hash now users [] h = refl
revoked-valid_session hash now users (s ∷ ss) h =
    ground (arith, revoked-valid_session hash now users ss)

pub revoked-resume_session :
    (db : Database) (hash : SecretHash) (now idle : Time) (t : Tables) (p : SessionPrincipal)
    → valid_session hash now t.users t.sessions ≡ none
    → (resume_session db hash now idle t).1 ≢ ok (some p)
unfolding resume_session
revoked-resume_session db hash now idle t p e h = ground arith

delete_session-all :
    (hash : SecretHash) (now : Time) (ss : List SessionRow)
    → all
        (λ s. not (has_token hash s) || is_revoked s)
        (update (λ s. s.token_hash == hash && is_null s.revoked_at) (revoke_session now) ss)
      ≡ true
delete_session-all hash now [] = refl
delete_session-all hash now (s ∷ ss) = ground (arith, delete_session-all hash now ss)

delete_session-any :
    (hash : SecretHash) (now : Time) (ss : List SessionRow)
    → any (has_token hash) ss ≡ true
    → any
        (has_token hash)
        (update (λ s. s.token_hash == hash && is_null s.revoked_at) (revoke_session now) ss)
      ≡ true
delete_session-any hash now [] h = h
delete_session-any hash now (s ∷ ss) h = ground (arith, delete_session-any hash now ss)

delete_session-IsRevoked :
    (db : Database) (hash : SecretHash) (t : Tables)
    → any (has_token hash) t.sessions ≡ true
    → (delete_session db hash t).1 ≡ ok tt
    → IsSettled (has_token hash) is_revoked (delete_session db hash t).0.sessions
unfolding delete_session
delete_session-IsRevoked db hash t h k =
    let after : (delete_session db hash t).0.sessions
        ≡ update (λ s. s.token_hash == hash && is_null s.revoked_at) (revoke_session db.clock)
            t.sessions =
      ground arith in
    subst (IsSettled (has_token hash) is_revoked) (sym after)
      (delete_session-any hash db.clock t.sessions h, delete_session-all hash db.clock t.sessions)

-- Once a session is logged out, its token is never honoured again: not after any further calls of
-- the store, at any time, whatever the database does. (The session is in the tables, though it need
-- not be valid.)
pub logged_out-ends :
    (db : Database) (hash : SecretHash) (t : Tables)
    → any (has_token hash) t.sessions ≡ true
    → (delete_session db hash t).1 ≡ ok tt
    → (print : Uuid → Text) (calls : List (Database × Time × StoreCall)) (db' : Database)
      (now idle : Time) (p : SessionPrincipal)
    → (resume_session db' hash now idle (run print calls (delete_session db hash t).0)).1
      ≢ ok (some p)
logged_out-ends db hash t h k print calls db' now idle p =
    let after = run print calls (delete_session db hash t).0 in
    revoked-resume_session db' hash now idle after p (
      revoked-valid_session hash now after.users after.sessions
        (run-IsRevoked hash print calls _ (delete_session-IsRevoked db hash t h k)).1)
