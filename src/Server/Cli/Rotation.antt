-- ===== src/Server/Cli/Rotation.antt =====
-- The command of server/src/main.rs that rotates all epochs, over the store of
-- server/src/repository.rs.
use rs_console.Server.Cli.{
  RotateAuthEpochArgs, Outside, builds_production, rotate_auth_epoch_run, refused_by,
}
use rs_console.Auth.Service.Accounts.{rotate_all}
use rs_console.Auth.Tokens.{Cryptography}
use rs_console.Server.Transaction.{Database}
use rs_console.Auth.Types.{Time, Uuid, AuthConfig, store_failed}
use rs_console.Common.{◌≤◌, ◌≡◌, ◌≢◌, true, false, arith, Text, bytes, length, err}
use rs_console.Server.Tables.{Tables}
use rs_console.Auth.Trim.{trim}
use rs_console.Server.Store.{pg_auth_store}
use rs_console.Server.Calls.Guards.{rotate_all_auth_epochs-refused}

-- A confirmed command to rotate all epochs, with a reason of twelve bytes or more when trimmed, on a
-- database that is reached and with an engine that is built, fails with an error of the store while
-- there is a user and the driver does not read an INT4 as an `i64`, whatever else the database does.
-- The tables are as they were: no epoch is advanced, and no session, ceremony or capability is closed.
pub rotate_auth_epoch_run-refused :
    (c : Cryptography) (db : Database) (print : Uuid → Text) (id : Uuid) (config : AuthConfig)
    (outside : Outside) (args : RotateAuthEpochArgs) (now : Time) (t : Tables)
    → args.enabled ≡ true
    → args.confirm ≡ bytes "ROTATE ALL AUTH EPOCHS"
    → 12 ≤ length (trim args.reason)
    → outside.connects 2 ≡ true
    → builds_production outside ≡ true
    → db.decodes_int4_as_i64 ≡ false
    → length t.users ≢ 0
    → rotate_auth_epoch_run c (pg_auth_store db print id) config outside args now t
      ≡ (t, err (refused_by store_failed))
unfolding rotate_auth_epoch_run rotate_all
rotate_auth_epoch_run-refused c db print id config outside args now t on confirmed long reached
      built refuses present =
    let refused = rotate_all_auth_epochs-refused db now (trim args.reason) t refuses present in
    ground arith
