-- ===== src/Server/Sessions/Valid.antt =====
-- The sessions that server/src/repository.rs honours.
use mathlib.Core.List.{Memᴰ}
use rs_console.Common.{
  ◌≤◌, ◌<◌, ◌≡◌, refl, ap, ◌∙◌, subst, ◌⊎◌, inl, inr, true, Option, none, some, List, [], ◌∷◌,
  arith, leb, ◌==◌, nat_eq, text_eq, bool_eq, Bool-cases, Option-cases, ok,
}
use rs_console.Policy.Ids.{new_id}
use rs_console.Auth.Types.{Time, SecretHash, SessionPrincipal}
use rs_console.Auth.Tokens.{from_slice}
use rs_console.Server.Rows.{UserRow, SessionRow, user_of_row}
use rs_console.Server.Tables.{Tables, is_null, update}
use rs_console.Server.Transaction.{Database}
use rs_console.Server.Sessions.{
  is_live, session_user, valid_session, earlier, touch_session, principal_of, resume_session,
  rotate_session_csrf,
}
use rs_console.Common.Found.{find-Memᴰ}

-- A session that a token opens at a time, with its user.
abbrev pub IsHonoured : SecretHash → Time → Tables → SessionRow → UserRow → Type 0
IsHonoured hash now t s u =
    Memᴰ s t.sessions
    × Memᴰ u t.users
    × (s.token_hash ≡ hash)
    × (s.revoked_at ≡ none)
    × (now < s.idle_expires_at)
    × (now < s.absolute_expires_at)
    × (u.id ≡ s.user_id)
    × (u.enabled ≡ true)
    × (s.auth_epoch ≡ u.auth_epoch)

is_null-none : {A : Type 0} (o : Option A) → is_null o ≡ true → o ≡ none
is_null-none none h = refl
is_null-none (some a) h = cc

valid_session-Memᴰ :
    (hash : SecretHash) (now : Time) (users : List UserRow) (ss : List SessionRow) (s : SessionRow)
    (u : UserRow)
    → valid_session hash now users ss ≡ some (s, u)
    → Memᴰ s ss × (is_live hash now s ≡ true) × (session_user users s ≡ some u)
unfolding valid_session
valid_session-Memᴰ hash now users [] s u h = cc
valid_session-Memᴰ hash now users (r ∷ ss) s u h = elim (Bool-cases (is_live hash now r)) [
  | inl live ↦ elim (Option-cases (session_user users r)) [
    | inl e ↦
        let found = valid_session-Memᴰ hash now users ss s u (ground arith) in
        (Memᴰ.tail found.0, found.1, found.2)
    | inr (w, e) ↦
        let same_row : r ≡ s = ground arith in
        let same_user : w ≡ u = ground arith in
        subst (λ y. Memᴰ y (r ∷ ss) × (is_live hash now y ≡ true) × (session_user users y ≡ some u))
          same_row (Memᴰ.head refl, live, e ∙ ap some same_user)
  ]
  | inr dead ↦
      let found = valid_session-Memᴰ hash now users ss s u (ground arith) in
      (Memᴰ.tail found.0, found.1, found.2)
]

-- The join of the two tables finds honoured sessions only.
pub valid_session-IsHonoured :
    (hash : SecretHash) (now : Time) (t : Tables) (s : SessionRow) (u : UserRow)
    → valid_session hash now t.users t.sessions ≡ some (s, u)
    → IsHonoured hash now t s u
unfolding session_user
valid_session-IsHonoured hash now t s u h =
    let found = valid_session-Memᴰ hash now t.users t.sessions s u h in
    let user_found = find-Memᴰ _ t.users u found.2 in
    (
      found.0,
      user_found.0,
      ground arith,
      is_null-none s.revoked_at (ground arith),
      ground arith,
      ground arith,
      ground arith,
      ground arith,
      ground arith,
    )

earlier-bounds :
    (a b : Time) → (earlier a b ≤ a) × (earlier a b ≤ b) × ((earlier a b ≡ a) ⊎ (earlier a b ≡ b))
earlier-bounds a b = elim (Bool-cases (leb a b)) [
  | inl e ↦ (ground arith, ground arith, inl (ground arith))
  | inr e ↦ (ground arith, ground arith, inr (ground arith))
]

-- A session is resumed for a token only if its row is honoured: it has the token's hash, is not
-- revoked, is neither idle nor at its absolute end, and its user is enabled and of the session's
-- epoch. The principal is that session and that user. Every row with the session's id is then last
-- seen now, and its end of idleness is the one asked for or the absolute end, whichever is earlier;
-- nothing else is changed.
pub resume_session-ok :
    (db : Database) (hash : SecretHash) (now idle : Time) (t : Tables) (p : SessionPrincipal)
    → (resume_session db hash now idle t).1 ≡ ok (some p)
    → (s : SessionRow) × (u : UserRow) × IsHonoured hash now t s u
      × (p.session_id ≡ s.id)
      × (p.user.id ≡ u.id)
      × (p.csrf_hash ≡ s.csrf_hash)
      × (p.absolute_expires_at ≡ s.absolute_expires_at)
      × (user_of_row u ≡ ok p.user)
      × ((ends : Time) × (ends ≤ idle)
          × (ends ≤ s.absolute_expires_at)
          × ((ends ≡ idle) ⊎ (ends ≡ s.absolute_expires_at))
          × ((resume_session db hash now idle t).0 ≡ record t {
            sessions =
                update
                  (λ r. r.id == s.id)
                  (λ r. record r { idle_expires_at = ends; last_seen_at = now })
                  t.sessions;
          }))
unfolding resume_session touch_session principal_of user_of_row from_slice new_id
resume_session-ok db hash now idle t p h =
    elim (Option-cases (valid_session hash now t.users t.sessions)) [
      | inl e ↦ absurd (ground arith)
      | inr ((s, u), e) ↦ (
        s,
        u,
        valid_session-IsHonoured hash now t s u e,
        ground arith,
        ground arith,
        ground arith,
        ground arith,
        ground arith,
        (
          earlier idle s.absolute_expires_at,
          (earlier-bounds idle s.absolute_expires_at).0,
          (earlier-bounds idle s.absolute_expires_at).1,
          (earlier-bounds idle s.absolute_expires_at).2,
          ground arith,
        ),
      )
    ]

-- A session gets a new token against forgery only if its row is honoured; that token's hash is then
-- in the row, and in the principal, and the end of idleness moves as when the session is resumed.
pub rotate_session_csrf-ok :
    (db : Database) (token_hash csrf_hash : SecretHash) (now idle : Time) (t : Tables)
    (p : SessionPrincipal)
    → (rotate_session_csrf db token_hash csrf_hash now idle t).1 ≡ ok (some p)
    → (s : SessionRow) × (u : UserRow) × IsHonoured token_hash now t s u
      × (p.session_id ≡ s.id)
      × (p.user.id ≡ u.id)
      × (p.csrf_hash ≡ csrf_hash)
      × ((rotate_session_csrf db token_hash csrf_hash now idle t).0
          ≡ record t { sessions = touch_session (some csrf_hash) s now idle t.sessions })
unfolding rotate_session_csrf user_of_row new_id
rotate_session_csrf-ok db token_hash csrf_hash now idle t p h =
    elim (Option-cases (valid_session token_hash now t.users t.sessions)) [
      | inl e ↦ absurd (ground arith)
      | inr ((s, u), e) ↦ (
        s,
        u,
        valid_session-IsHonoured token_hash now t s u e,
        ground arith,
        ground arith,
        ground arith,
        ground arith,
      )
    ]
