-- ===== src/Server/Logins/Rows.antt =====
-- The session and the user of a completed authentication, in the tables of
-- server/src/repository.rs.
use rs_console.Common.{
  ℕ, ◌<◌, ◌≡◌, refl, ap, ◌∙◌, inl, inr, true, false, ◌||◌, some, List, [], ◌∷◌, ◌++◌, arith, ◌==◌,
  nat_eq, text_eq, ==_iff, bool_eq, Bool-cases, Option-cases, length, any, find, Result-cases, ok,
}
use rs_console.Server.Transaction.{Database, made}
use rs_console.Auth.Types.{
  Time, Uuid, SecretHash, User, AuthenticationVerification, SessionRecord, AuditEvent,
}
use rs_console.Server.Ceremonies.{log_in, complete_authentication}
use rs_console.Server.Sessions.{is_live, session_user, valid_session, principal_of, resume_session}
use rs_console.Server.Rows.{UserRow, SessionRow, user_of_row}
use rs_console.Server.Tables.{Tables, user_exists, add_session, add_audit, insert_audit}
use rs_console.Auth.Tokens.{from_slice}
use rs_console.Server.Writes.Keys.Added.{session_inserted}
use rs_console.Server.Calls.Atomic.{transaction-ok}
use rs_console.Server.Writes.Distinct.{distinct}
use rs_console.Policy.Ids.{new_id}
use rs_console.Server.Queries.{user_by_handle}
use rs_console.Server.Writes.Keys.{same_user}
use rs_console.Server.Writes.Settled.{any-weaken, find-any}

-- A database whose statements and commits do not fail.
abbrev pub IsHealthy : Database → Type 0
IsHealthy db = ((line : ℕ) → db.fails line ≡ false) × ((line : ℕ) → db.commit line ≡ made)

log_in-sessions :
    (db : Database) (id : Uuid) (v : AuthenticationVerification) (s : SessionRecord) (now : Time)
    (e : AuditEvent) (t t' : Tables)
    → log_in db id v s now e t ≡ ok (t', tt)
    → (t'.users ≡ t.users)
      × (t'.sessions ≡ t.sessions ++ (session_inserted s now ∷ []))
      × (any (λ r. r.id == s.id || r.token_hash == s.token_hash) t.sessions ≡ false)
      × (length s.csrf_hash ≡ 32)
unfolding log_in insert_audit add_session add_audit user_exists
log_in-sessions db id v s now e t t' h = (ground arith, ground arith, ground arith, ground arith)

-- Behind sessions with other tokens.
valid_session-append :
    (hash : SecretHash) (now : Time) (users : List UserRow) (ss rest : List SessionRow)
    → any (λ r. r.token_hash == hash) ss ≡ false
    → valid_session hash now users (ss ++ rest) ≡ valid_session hash now users rest
unfolding valid_session
valid_session-append hash now users [] rest h = refl
valid_session-append hash now users (s ∷ ss) rest h =
    ground (arith, valid_session-append hash now users ss rest)

any-part :
    (id : Uuid) (hash : SecretHash) (ss : List SessionRow)
    → any (λ r. r.id == id || r.token_hash == hash) ss ≡ false
    → any (λ r. r.token_hash == hash) ss ≡ false
any-part id hash [] h = h
any-part id hash (s ∷ ss) h = ground (arith, any-part id hash ss)

-- The user of a session is the one with the session's user id, if that one is enabled and of the
-- session's epoch.
session_user-find :
    (users : List UserRow) (s : SessionRow) (u : UserRow)
    → find (λ v. v.id == s.user_id) users ≡ some u
    → u.enabled ≡ true
    → s.auth_epoch ≡ u.auth_epoch
    → session_user users s ≡ some u
unfolding session_user
session_user-find [] s u h on same = cc
session_user-find (v ∷ users) s u h on same = elim (Bool-cases (v.id == s.user_id)) [
  | inl e ↦ let found : v ≡ u = ground arith in ground arith
  | inr e ↦ let rest = session_user-find users s u (ground arith) on same in ground arith
]

resume_session-found :
    (db : Database) (hash : SecretHash) (now idle : Time) (t : Tables) (s : SessionRow)
    (u : UserRow) (user : User)
    → IsHealthy db
    → valid_session hash now t.users t.sessions ≡ some (s, u)
    → user_of_row u ≡ ok user
    → length s.csrf_hash ≡ 32
    → (resume_session db hash now idle t).1
      ≡ ok (
          some (record {
            session_id = s.id;
            user = user;
            csrf_hash = s.csrf_hash;
            absolute_expires_at = s.absolute_expires_at;
          }))
unfolding resume_session principal_of from_slice
resume_session-found db hash now idle t s u user (no_failure, no_loss) found named long =
    let f1 = no_failure 764 in
    let f2 = no_failure 765 in let f3 = no_failure 786 in let f4 = no_loss 797 in ground arith

-- The session of a completed authentication, in the store.
pub complete_authentication-resume_session :
    (db db' : Database) (id : Uuid) (v : AuthenticationVerification) (s : SessionRecord)
    (now now' idle : Time) (e : AuditEvent) (t : Tables) (u : UserRow) (user : User)
    → IsHealthy db'
    → (complete_authentication db id v s now e t).1 ≡ ok tt
    → find (λ v. v.id == s.user_id) t.users ≡ some u
    → u.enabled ≡ true
    → s.auth_epoch ≡ u.auth_epoch
    → user_of_row u ≡ ok user
    → now' < s.idle_expires_at
    → now' < s.absolute_expires_at
    → (resume_session db' s.token_hash now' idle (complete_authentication db id v s now e t).0).1
      ≡ ok (
          some (record {
            session_id = s.id;
            user = user;
            csrf_hash = s.csrf_hash;
            absolute_expires_at = s.absolute_expires_at;
          }))
unfolding complete_authentication valid_session
complete_authentication-resume_session db db' id v s now now' idle e t u user healthy done_ found on
      same named idles ends =
    let t' = (complete_authentication db id v s now e t).0 in
    let row = session_inserted s now in
    let (users, sessions, unused, long) =
      log_in-sessions db id v s now e t t'
        (transaction-ok db 692 741 t (log_in db id v s now e t) tt done_) in
    let only =
      valid_session-append s.token_hash now' t.users t.sessions (row ∷ [])
        (any-part s.id s.token_hash t.sessions unused) in
    let its_user = session_user-find t.users row u found on same in
    let live : is_live s.token_hash now' row ≡ true =
      let own = (==_iff s.token_hash s.token_hash).1 refl in ground arith in
    let last : valid_session s.token_hash now' t.users (row ∷ []) ≡ some (row, u) = ground arith in
    resume_session-found db' s.token_hash now' idle t' row u user healthy
      (rw (users, sessions) (only ∙ last)) named long

pub user_by_handle-find :
    (db : Database) (t : Tables) (handle : Uuid) (user : User)
    → user_by_handle db t handle ≡ ok (some user)
    → (u : UserRow) × (find (λ v. v.webauthn_handle == handle) t.users ≡ some u)
      × (user_of_row u ≡ ok user)
unfolding user_by_handle
user_by_handle-find db t handle user h =
    elim (Option-cases (find (λ v. v.webauthn_handle == handle) t.users)) [
      | inl e ↦ absurd (ground arith)
      | inr (u, e) ↦ elim (Result-cases (user_of_row u)) [
        | inl (w, k) ↦ (u, e, ground arith)
        | inr (x, k) ↦ absurd (ground arith)
      ]
    ]

pub user_of_row-same :
    (u : UserRow) (user : User)
    → user_of_row u ≡ ok user
    → (user.id ≡ u.id) × (user.enabled ≡ u.enabled) × (user.auth_epoch ≡ u.auth_epoch)
unfolding user_of_row new_id
user_of_row-same u user h = (ground arith, ground arith, ground arith)

-- The row that a lookup by handle finds is found by its id too, where no two users share an id.
pub find-id :
    (handle : Uuid) (users : List UserRow) (u : UserRow)
    → distinct same_user users ≡ true
    → find (λ v. v.webauthn_handle == handle) users ≡ some u
    → find (λ v. v.id == u.id) users ≡ some u
find-id handle [] u d h = cc
find-id handle (v ∷ users) u d h = elim (Bool-cases (v.webauthn_handle == handle)) [
  | inl e ↦
      let first : v ≡ u = ground arith in
      let own = (==_iff v.id u.id).1 (ap (λ w. w.id) first) in ground arith
  | inr e ↦
      let rest = find-id handle users u (ground arith) (ground arith) in
      elim (Bool-cases (v.id == u.id)) [
        | inl same ↦
            let twice =
              any-weaken (λ w. w.id == u.id) (same_user v) users (λ w k. ground arith)
                (find-any (λ w. w.id == u.id) users u rest) in
            absurd (ground arith)
        | inr other ↦ ground arith
      ]
]
