-- ===== src/Server/Writes/Settled/SignedOut.antt =====
-- The sessions of a user whose recovery is approved (server/src/repository.rs).
use rs_console.Server.Calls.{StoreCall, run}
use rs_console.Common.{
  ◌≡◌, refl, sym, subst, ◌≢◌, Bool, true, ◌&&◌, some, List, arith, Text, ◌==◌, nat_eq, text_eq,
  bool_eq, any, find, ok,
}
use rs_console.Server.Recoveries.{
  is_pending_request, invalidate_user_auth, approve_request, approve_recovery,
}
use rs_console.Server.Transaction.{Database}
use rs_console.Auth.Types.{Time, Uuid, SecretHash, SessionPrincipal}
use rs_console.Server.Users.{advance_epochs}
use rs_console.Server.Rows.{SessionRow, RecoveryRow}
use rs_console.Server.Tables.{Tables, is_null, update, add_audit, insert_audit}
use rs_console.Policy.Ids.{UserId}
use rs_console.Server.Writes.Keys.{same_session, IsConsistent}
use rs_console.Server.Writes.{revoke_session}
use rs_console.Server.Writes.Settled.{IsSettled, settles_own}
use rs_console.Server.Sessions.{resume_session}
use rs_console.Server.Writes.Settled.Sessions.{
  has_token, is_revoked, run-IsRevoked, revoked-valid_session, revoked-resume_session,
}
use rs_console.Server.Calls.Atomic.{transaction-ok}

approve_request-sessions :
    (db : Database) (print : Uuid → Text) (id : Uuid) (operator_id : UserId) (now : Time)
    (t t' : Tables) (r : RecoveryRow)
    → find (is_pending_request id) t.recoveries ≡ some r
    → approve_request db print id operator_id now t ≡ ok (t', tt)
    → t'.sessions
      ≡ update (λ s. s.user_id == r.user_id && is_null s.revoked_at) (revoke_session now) t.sessions
unfolding approve_request invalidate_user_auth advance_epochs insert_audit add_audit
approve_request-sessions db print id operator_id now t t' r found h = ground arith

-- Whether a session is the user's and has the token's hash.
abbrev pub is_session_of : Text → SecretHash → SessionRow → Bool
is_session_of user_id hash s = s.user_id == user_id && s.token_hash == hash

update-IsRevoked :
    (user_id : Text) (hash : SecretHash) (now : Time) (t : Tables)
    → IsConsistent t
    → any (is_session_of user_id hash) t.sessions ≡ true
    → IsSettled
        (has_token hash)
        is_revoked
        (update (λ s. s.user_id == user_id && is_null s.revoked_at) (revoke_session now) t.sessions)
update-IsRevoked user_id hash now t k h =
    settles_own same_session (has_token hash) is_revoked (is_session_of user_id hash)
      (λ s. s.user_id == user_id && is_null s.revoked_at) (revoke_session now) t.sessions
      (λ r r' a b. ground arith) (λ r. refl) (λ r e. ground arith) (λ r e. ground arith)
      k.sessions.0 h

-- Once a recovery is approved, in tables that meet the constraints, no token of a session that the
-- user who asked for it then had is honoured again: not after any further calls of the store, at any
-- time, whatever the database does. (A later login with a passkey opens a session with a token of
-- its own.)
pub approve_recovery-signs_out :
    (db : Database) (print : Uuid → Text) (id : Uuid) (operator_id : UserId) (now : Time)
    (t : Tables) (r : RecoveryRow) (hash : SecretHash)
    → IsConsistent t
    → find (is_pending_request id) t.recoveries ≡ some r
    → any (is_session_of r.user_id hash) t.sessions ≡ true
    → (approve_recovery db print id operator_id now t).1 ≡ ok tt
    → (calls : List (Database × Time × StoreCall)) (db' : Database) (now' idle : Time)
      (p : SessionPrincipal)
    → (resume_session db' hash now' idle
        (run print calls (approve_recovery db print id operator_id now t).0)).1
      ≢ ok (some p)
unfolding approve_recovery
approve_recovery-signs_out db print id operator_id now t r hash k found had h calls db' now' idle
      p =
    let approved = (approve_recovery db print id operator_id now t).0 in
    let after = run print calls approved in
    let sessions =
      approve_request-sessions db print id operator_id now t approved r found
        (transaction-ok db 953 979 t _ tt h) in
    let revoked =
      subst (IsSettled (has_token hash) is_revoked) (sym sessions)
        (update-IsRevoked r.user_id hash now t k had) in
    revoked-resume_session db' hash now' idle after p (
      revoked-valid_session hash now' after.users after.sessions
        (run-IsRevoked hash print calls approved revoked).1)
