-- ===== src/Server/Sessions.antt =====
-- Sessions in server/src/repository.rs.
pub mod Valid
use rs_console.Common.{
  Bool, ◌&&◌, Option, none, some, List, [], ◌∷◌, ltb, leb, if◌then◌else◌, Text, ◌==◌, nat_eq,
  text_eq, bool_eq, find, Result, ◌>>=◌, ok, err,
}
use rs_console.Auth.Types.{Time, Uuid, SecretHash, SessionPrincipal, AuthError}
use rs_console.Auth.Tokens.{from_slice}
use rs_console.Server.Rows.{UserRow, SessionRow, user_of_row}
use rs_console.Server.Tables.{Tables, is_null, update}
use rs_console.Server.Transaction.{Database, statement, commit_at, transaction, single}

-- The condition on a session that needs no user.
abbrev pub is_live : SecretHash → Time → SessionRow → Bool
is_live token_hash now s =
    s.token_hash == token_hash
    && is_null s.revoked_at
    && ltb now s.idle_expires_at
    && ltb now s.absolute_expires_at

-- The user that a session is joined with.
unfoldable pub session_user : List UserRow → SessionRow → Option UserRow
session_user users s =
    find (λ u. u.id == s.user_id && u.enabled && s.auth_epoch == u.auth_epoch) users

-- The first row of `auth_sessions s JOIN human_users u`.
unfoldable pub valid_session :
    SecretHash → Time → List UserRow → List SessionRow → Option (SessionRow × UserRow)
unfolding session_user
valid_session token_hash now users [] = none
valid_session token_hash now users (s ∷ ss) =
    let rest = valid_session token_hash now users ss in
    if is_live token_hash now s
    then elim (session_user users s) [ none ↦ rest | some u ↦ some (s, u) ]
    else rest

-- `DateTime::min`.
abbrev pub earlier : Time → Time → Time
earlier a b = if leb a b then a else b

-- `WHERE id = $1` with the new end of idleness.
abbrev pub touch : Uuid → Option SecretHash → Time → Time → SessionRow → SessionRow
touch id none idle now s = record s { idle_expires_at = idle; last_seen_at = now }
touch id (some csrf_hash) idle now s = record s {
  csrf_hash = csrf_hash;
  idle_expires_at = idle;
  last_seen_at = now;
}

unfoldable pub touch_session :
    Option SecretHash → SessionRow → Time → Time → List SessionRow → List SessionRow
touch_session csrf_hash s now idle_expires_at ss =
    update (λ r. r.id == s.id)
      (touch s.id csrf_hash (earlier idle_expires_at s.absolute_expires_at) now) ss

-- The principal that a session's row and its user's are read as.
unfoldable pub principal_of : Text → SessionRow → UserRow → Result AuthError SessionPrincipal
principal_of csrf_hash s u = do
  user ← user_of_row u
  csrf_hash ← from_slice csrf_hash
  ok (record {
    session_id = s.id;
    user = user;
    csrf_hash = csrf_hash;
    absolute_expires_at = s.absolute_expires_at;
  })

module _ (db : Database) where
  -- `session`.
  unfoldable pub resume_session :
      SecretHash → Time → Time → Tables → Tables × Result AuthError (Option SessionPrincipal)
  unfolding valid_session touch_session principal_of
  resume_session token_hash now idle_expires_at t =
      elim (statement db 764
        (statement db 765 (ok (valid_session token_hash now t.users t.sessions)))) [
          | err e ↦ (t, err e)
          | ok none ↦ commit_at db 782 t (t, none)
          | ok (some (s, u)) ↦
              let (t', done) = transaction db 786 797 t (
                ok (
                  record t { sessions = touch_session none s now idle_expires_at t.sessions },
                  tt {0},
                )) in
              (t', (do _ ← done; principal ← principal_of s.csrf_hash s u; ok (some principal)))
        ]

  -- `rotate_session_csrf`.
  unfoldable pub rotate_session_csrf :
      SecretHash
      → SecretHash
      → Time
      → Time
      → Tables
      → Tables × Result AuthError (Option SessionPrincipal)
  unfolding valid_session touch_session
  rotate_session_csrf token_hash csrf_hash now idle_expires_at t =
      elim (statement db 835
        (statement db 836 (ok (valid_session token_hash now t.users t.sessions)))) [
          | err e ↦ (t, err e)
          | ok none ↦ commit_at db 853 t (t, none)
          | ok (some (s, u)) ↦
              let (t', done) = transaction db 857 869 t (
                ok (
                  record t {
                    sessions = touch_session (some csrf_hash) s now idle_expires_at t.sessions;
                  },
                  tt {0},
                )) in
              (
                t',
                (do
                  _ ← done
                  user ← user_of_row u
                  ok (
                      some (record {
                        session_id = s.id;
                        user = user;
                        csrf_hash = csrf_hash;
                        absolute_expires_at = s.absolute_expires_at;
                      }))),
              )
        ]

  -- `delete_session`; the time is the database's.
  unfoldable pub delete_session : SecretHash → Tables → Tables × Result AuthError (Unit {0})
  delete_session token_hash t = single db 888 t (
      ok (
        record t {
          sessions =
              update (λ s. s.token_hash == token_hash && is_null s.revoked_at)
                (λ s. record s { revoked_at = some db.clock }) t.sessions;
        },
        tt,
      ))
