-- ===== src/Server/Queries.antt =====
-- The queries of `PgAuthStore` in server/src/repository.rs that change nothing. Rows that
-- `ORDER BY` leaves equal keep the order of the table.
use rs_console.Common.{
  ℕ, Bool, ◌&&◌, Option, none, some, List, [], ◌∷◌, ltb, leb, if◌then◌else◌, bytes, ◌==◌, nat_eq,
  text_eq, bool_eq, length, any, find, Result, ◌>>=◌, ok,
}
use rs_console.Policy.Ids.{UserId}
use rs_console.Auth.Types.{
  Time, Uuid, SecretHash, User, StoredCredential, CeremonyKind, Ceremony, CapabilityPurpose,
  Capability, RecoveryRequest, AuthError,
}
use rs_console.Auth.Tokens.{hash, from_slice}
use rs_console.Server.Names.{purpose_name, ceremony_name}
use rs_console.Server.Rows.{
  UserRow, CredentialRow, CapabilityRow, CeremonyRow, transpose, collect, user_of_row,
  credential_of_row, capability_of_row, ceremony_of_row, recovery_of_row,
}
use rs_console.Server.Tables.{Tables, is_null, select}
use rs_console.Server.Transaction.{Database, statement}

-- `ORDER BY`.
unfoldable pub insert_by {ℓ} : {A : Type ℓ} → (A → ℕ) → A → List A → List A
insert_by key a [] = a ∷ []
insert_by key a (b ∷ bs) =
    let rest = insert_by key a bs in if leb (key a) (key b) then a ∷ b ∷ bs else b ∷ rest

unfoldable pub order_by {ℓ} : {A : Type ℓ} → (A → ℕ) → List A → List A
unfolding insert_by
order_by key [] = []
order_by key (a ∷ rest) = insert_by key a (order_by key rest)

-- `ORDER BY .. DESC LIMIT 1`.
unfoldable pub latest {ℓ} : {A : Type ℓ} → (A → ℕ) → List A → Option A
latest key [] = none
latest key (a ∷ rest) = elim (latest key rest) [
  | none ↦ some a
  | some b ↦ if leb (key b) (key a) then some a else some b
]

-- `LIMIT 1`.
abbrev pub first {ℓ} : {A : Type ℓ} → List A → Option A
first [] = none
first (a ∷ rest) = some a

-- `consumed_at IS NULL AND expires_at > now`.
abbrev pub open_capability : Time → CapabilityRow → Bool
open_capability now c = is_null c.consumed_at && ltb now c.expires_at

abbrev pub open_ceremony : Time → CeremonyRow → Bool
open_ceremony now c = is_null c.consumed_at && ltb now c.expires_at

-- Whether a user has the role of an operator.
abbrev pub is_operator : UserRow → Bool
is_operator u = u.role == bytes "operator"

-- The credentials of operators that are not revoked.
unfoldable pub operator_credentials : Tables → List CredentialRow
operator_credentials t =
    select (λ c. is_null c.revoked_at && any (λ u. u.id == c.user_id && is_operator u) t.users)
      t.credentials

module _ (db : Database) where
  -- `user_by_id`.
  unfoldable pub user_by_id : Tables → UserId → Result AuthError (Option User)
  user_by_id t id = do
    row ← statement db 251 (ok (find (λ u. u.id == id) t.users))
    transpose user_of_row row

  -- `user_by_handle`.
  unfoldable pub user_by_handle : Tables → Uuid → Result AuthError (Option User)
  user_by_handle t handle = do
    row ← statement db 264 (ok (find (λ u. u.webauthn_handle == handle) t.users))
    transpose user_of_row row

  -- `credentials_for_user`.
  unfoldable pub credentials_for_user : Tables → UserId → Result AuthError (List StoredCredential)
  unfolding order_by
  credentials_for_user t user_id = do
    rows ← statement db 280 (
        ok (
          order_by (λ c. c.created_at)
            (select (λ c. c.user_id == user_id && is_null c.revoked_at) t.credentials)))
    collect credential_of_row rows

  -- `operator_without_credential`.
  unfoldable pub operator_without_credential : Tables → Result AuthError (Option User)
  unfolding order_by operator_credentials
  operator_without_credential t = do
    rows ← statement db 296 (
        ok (
          if length (operator_credentials t) == 0
          then order_by (λ u. u.created_at) (select (λ u. is_operator u && u.enabled) t.users)
          else []))
    transpose user_of_row (first rows)

  -- `operator_exists`.
  unfoldable pub operator_exists : Tables → Result AuthError Bool
  operator_exists t = statement db 320 (ok (any is_operator t.users))

  -- The open recovery windows, each with its operator.
  unfoldable pub recovery_windows :
      Time → List UserRow → List CapabilityRow → List (CapabilityRow × UserRow)
  recovery_windows now users [] = []
  recovery_windows now users (c ∷ cs) =
      let rest = recovery_windows now users cs in
      if c.purpose == bytes "operator_recovery" && open_capability now c
      then elim (find (λ u. u.id == c.user_id && is_operator u && u.enabled) users) [
        | none ↦ rest
        | some u ↦ (c, u) ∷ rest
      ]
      else rest

  -- `operator_recovery_window`.
  unfoldable pub operator_recovery_window :
      Tables → Time → Result AuthError (Option (User × SecretHash))
  unfolding latest recovery_windows
  operator_recovery_window t now = do
    row ←
        statement db 344
          (ok (latest (λ w. w.0.created_at) (recovery_windows now t.users t.capabilities)))
    transpose (λ w. do hash ← from_slice w.0.token_hash; user ← user_of_row w.1; ok (user, hash))
        row

  -- `capability`.
  unfoldable pub find_capability :
      Tables → SecretHash → CapabilityPurpose → Time → Result AuthError (Option Capability)
  find_capability t token_hash purpose now = do
    row ← statement db 380 (
        ok (
          find
            (λ c.
              c.token_hash == token_hash
              && c.purpose == purpose_name purpose
              && open_capability now c)
            t.capabilities))
    transpose capability_of_row row

  -- `ceremony`.
  unfoldable pub find_ceremony :
      Tables → Uuid → CeremonyKind → Time → Result AuthError (Option Ceremony)
  find_ceremony t id kind now = do
    row ← statement db 576 (
        ok (
          find (λ c. c.id == id && c.kind == ceremony_name kind && open_ceremony now c)
            t.ceremonies))
    transpose ceremony_of_row row

  -- `pending_recoveries`.
  unfoldable pub pending_recoveries : Tables → Result AuthError (List RecoveryRequest)
  unfolding order_by
  pending_recoveries t = do
    rows ←
        statement db 933
          (ok (order_by (λ r. r.requested_at) (select (λ r. is_null r.completed_at) t.recoveries)))
    collect recovery_of_row rows
