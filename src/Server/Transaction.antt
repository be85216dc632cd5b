-- ===== src/Server/Transaction.antt =====
-- The calls that server/src/repository.rs makes of its database. A call may fail for reasons of its
-- own; a transaction whose body returns an error is rolled back when it is dropped.
use rs_console.Common.{ℕ, Bool, if◌then◌else◌, Result, ok, err}
use rs_console.Auth.Types.{Time, AuthError, store_failed}

-- What becomes of a commit: it is made, it fails, or it is made and its answer is lost.
pub data Commit : Type 0 where
  made failed answer_lost : Commit

-- The behaviour of the database during a call of the store: its clock, whether the statement that
-- stands on a line of the file fails, what becomes of the commit on a line, and whether the driver
-- reads a column of type INT4 as an `i64`, which sqlx documents it does not.
pub record Database : Type 0 where
  pub clock : Time
  pub fails : ℕ → Bool
  pub commit : ℕ → Commit
  pub decodes_int4_as_i64 : Bool

-- A statement at a line; `map_err(|_| AuthError::Store)`.
abbrev pub statement {ℓ} : {A : Type ℓ} → Database → ℕ → Result AuthError A → Result AuthError A
statement db line result = if db.fails line then err store_failed else result

-- The end of a transaction: `commit().await.map_err(|_| AuthError::Store)`.
abbrev pub commit_at : {S A : Type 0} → Database → ℕ → S → S × A → S × Result AuthError A
commit_at db line before (after, a) = elim (db.commit line) [
  | made ↦ (after, ok a)
  | failed ↦ (before, err store_failed)
  | answer_lost ↦ (after, err store_failed)
]

-- From `begin` at one line to `commit` at another.
abbrev pub transaction :
    {S A : Type 0} → Database → ℕ → ℕ → S → Result AuthError (S × A) → S × Result AuthError A
transaction db begins commits before body = elim (statement db begins body) [
  | err e ↦ (before, err e)
  | ok done ↦ commit_at db commits before done
]

-- A statement outside a transaction commits by itself; when its answer is lost, it may be made.
abbrev pub single :
    {S A : Type 0} → Database → ℕ → S → Result AuthError (S × A) → S × Result AuthError A
single db line before result = transaction db line line before result
