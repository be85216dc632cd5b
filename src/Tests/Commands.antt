-- ===== src/Tests/Commands.antt =====
-- The theorems on the commands of server/src/main.rs at concrete arguments.
use rs_console.Common.{
  ℕ, ◌+◌, ◌≡◌, refl, true, some, arith, ℕ_discrete, bytes, Text-discrete, ok, err,
}
use rs_console.Server.Cli.{
  BreakGlassArgs, RotateAuthEpochArgs, CliError, Outside, window_of, break_glass_gates,
  break_glass_run, rotate_auth_epoch_run, main, pos, break_glass_command, refused_by,
}
use rs_console.Tests.Service.{plain_text, store, service_run}
use rs_console.Policy.Ids.{UserId}
use rs_console.Server.Cli.Gates.{IsOpened, is_confirmed, break_glass_run-IsOpened, main_unconfirmed}
use rs_console.Auth.Types.{Capability, minutes, default_config, store_failed}
use rs_console.Tests.Database.{healthy, print_uuid, hash_b, tables}
use rs_console.Auth.Trim.{trim}
use rs_console.Server.Cli.Rotation.{rotate_auth_epoch_run-refused}

abbrev outside : Outside
outside = record {
  connects = λ connections. true;
  migrates = true;
  builds_engine = λ rp_id origin production. true;
}

abbrev lost_key : BreakGlassArgs
lost_key = record {
  enabled = true;
  operator_user_id = bytes "root";
  revoke_credential = 21;
  reason = bytes " the only key was lost ";
  window_minutes = pos 15;
  confirm = bytes "INVALIDATE OPERATOR AUTH";
}

break_glass_run-IsOpened_example :
    (user_id : UserId) × (window : ℕ) × (capability : Capability) × IsOpened lost_key user_id window
    × (capability.user_id ≡ user_id)
    × (capability.expires_at ≡ 10 + minutes window)
    × ((store.break_glass 21 capability 10 (trim (bytes " the only key was lost ")) tables).1
        ≡ ok tt)
    × ((break_glass_run plain_text store default_config outside lost_key 71 hash_b 10 tables).0
        ≡ (store.break_glass 21 capability 10 (trim (bytes " the only key was lost ")) tables).0)
unfolding service_run break_glass_run break_glass_gates window_of
break_glass_run-IsOpened_example =
    break_glass_run-IsOpened plain_text store default_config outside lost_key 71 hash_b 10 tables
      refl

-- Enabled, without the words.
main_unconfirmed_example :
    (x : CliError) × (main plain_text store default_config outside
        (some (bytes "postgres://db"))
        (break_glass_command (record lost_key { confirm = bytes "yes" }))
        71
        hash_b
        10
        tables
      ≡ (tables, err x))
unfolding is_confirmed Text-discrete ℕ_discrete
main_unconfirmed_example =
    main_unconfirmed plain_text store default_config outside (some (bytes "postgres://db"))
      (break_glass_command (record lost_key { confirm = bytes "yes" })) 71 hash_b 10 tables refl

-- Two users, after a restore.
abbrev after_restore : RotateAuthEpochArgs
after_restore = record {
  enabled = true;
  reason = bytes "restored from the backup";
  confirm = bytes "ROTATE ALL AUTH EPOCHS";
}

rotate_auth_epoch_run-refused_example :
    rotate_auth_epoch_run plain_text store default_config outside after_restore 10 tables
    ≡ (tables, err (refused_by store_failed))
unfolding service_run
rotate_auth_epoch_run-refused_example =
    rotate_auth_epoch_run-refused plain_text healthy print_uuid 70 default_config outside
      after_restore 10 tables refl refl (ground arith) refl refl refl (λ e. absurd (ground arith))
