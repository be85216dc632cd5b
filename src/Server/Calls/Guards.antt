-- ===== src/Server/Calls/Guards.antt =====
-- Bootstraps in server/src/repository.rs, and the rotation of all epochs, which is rolled back.
use rs_console.Common.{
  ◌≡◌, ◌≢◌, inl, inr, false, Option, some, arith, ℕ_discrete, Text, bytes, Text-discrete,
  Bool-cases, Option-cases, length, find, ok, err,
}
use rs_console.Auth.Types.{Time, Uuid, SecretHash, VerifiedCredential, AuditEvent, store_failed}
use rs_console.Server.Rows.{CeremonyRow}
use rs_console.Server.Tables.{Tables}
use rs_console.Server.Transaction.{Database}
use rs_console.Server.Queries.{operator_credentials}
use rs_console.Server.Ceremonies.{
  is_open, returned_user, check_bootstrap, register, complete_registration,
}
use rs_console.Server.Users.{advance_epochs, fetch_ones, rotate, rotate_all_auth_epochs}
use rs_console.Server.Calls.Atomic.{transaction-ok}

register-first :
    (db : Database) (i id : Uuid) (hash : Option SecretHash) (c : VerifiedCredential) (now : Time)
    (e : AuditEvent) (t t' : Tables) (r : CeremonyRow)
    → find (is_open id now) t.ceremonies ≡ some r
    → r.kind ≡ bytes "operator_bootstrap"
    → register db i id hash c now e t ≡ ok (t', tt)
    → length (operator_credentials t) ≡ 0
unfolding register returned_user check_bootstrap operator_credentials Text-discrete ℕ_discrete
register-first db i id hash c now e t t' r found kind h = elim (Option-cases r.user_id) [
  | inl none_given ↦ absurd (ground arith)
  | inr (u, given) ↦ ground arith
]

-- A ceremony of an operator's bootstrap is completed only while no operator has a credential that is
-- not revoked.
pub bootstrap_first :
    (db : Database) (i id : Uuid) (hash : Option SecretHash) (c : VerifiedCredential) (now : Time)
    (e : AuditEvent) (t : Tables) (r : CeremonyRow)
    → find (is_open id now) t.ceremonies ≡ some r
    → r.kind ≡ bytes "operator_bootstrap"
    → (complete_registration db i id hash c now e t).1 ≡ ok tt
    → length (operator_credentials t) ≡ 0
unfolding complete_registration
bootstrap_first db i id hash c now e t r found kind h =
    register-first db i id hash c now e t _ r found kind (transaction-ok db 599 681 t _ tt h)

rotate-refused :
    (db : Database) (now : Time) (reason : Text) (t : Tables)
    → db.decodes_int4_as_i64 ≡ false
    → length t.users ≢ 0
    → rotate db now reason t ≡ err store_failed
unfolding rotate fetch_ones advance_epochs
rotate-refused db now reason t refuses present = elim (Bool-cases (db.fails 509)) [
  | inl e ↦ ground arith
  | inr e ↦ ground arith
]

-- A rotation that the driver refuses to read leaves the tables as they were.
pub rotate_all_auth_epochs-refused :
    (db : Database) (now : Time) (reason : Text) (t : Tables)
    → db.decodes_int4_as_i64 ≡ false
    → length t.users ≢ 0
    → rotate_all_auth_epochs db now reason t ≡ (t, err store_failed)
unfolding rotate_all_auth_epochs
rotate_all_auth_epochs-refused db now reason t refuses present =
    let refused = rotate-refused db now reason t refuses present in ground arith
