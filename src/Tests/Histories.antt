-- ===== src/Tests/Histories.antt =====
-- The theorems on histories of the store of server/src/repository.rs at concrete inputs.
use rs_console.Common.{refl, ◌≢◌, some, List, [], ◌∷◌, bytes, ok}
use rs_console.Server.Calls.{StoreCall, run, logs_in, logs_out, creates_recovery}
use rs_console.Auth.Types.{Time, CapabilityPurpose, Capability}
use rs_console.Server.Writes.Keys.{IsConsistent}
use rs_console.Server.Tables.{Tables, capability_row}
use rs_console.Tests.Database.{
  store_run, healthy, broken, print_uuid, hash_a, hash_b, pending_row, tables, event_of, verified,
  granted, new_passkey, window, ann,
}
use rs_console.Server.Recoveries.{approve_recovery, issue_recovery_setup}
use rs_console.Server.Ceremonies.{complete_registration}
use rs_console.Server.Sessions.{resume_session, delete_session}
use rs_console.Server.Writes.Keys.Runs.{run-IsConsistent}
use rs_console.Server.Writes.Settled.Recoveries.{approve_recovery_once, issue_recovery_setup_once}
use rs_console.Server.Writes.Settled.Capabilities.{capability_used_once}
use rs_console.Server.Writes.Settled.Sessions.{logged_out-ends}
use rs_console.Server.Transaction.{Database}
use rs_console.Server.Writes.Settled.SignedOut.{approve_recovery-signs_out}

abbrev has_capability : Tables
has_capability = record tables {
  capabilities = capability_row (record window { user_id = bytes "ann" }) 5 ∷ [];
}

abbrev has_approved : Tables
has_approved = record tables {
  recoveries = record pending_row { approved_at = some 9; approved_by = some (bytes "root") } ∷ [];
}

abbrev setup_capability : Capability
setup_capability = record window {
  user_id = bytes "ann";
  purpose = CapabilityPurpose.recovery_setup;
}

pub tables-IsConsistent : IsConsistent tables
unfolding store_run
tables-IsConsistent = record {
  users = (refl, refl);
  credentials = (refl, refl);
  capabilities = (refl, refl);
  ceremonies = (refl, refl);
  sessions = (refl, refl);
  recoveries = (refl, refl);
}

has_capability-IsConsistent : IsConsistent has_capability
unfolding store_run
has_capability-IsConsistent = record {
  users = (refl, refl);
  credentials = (refl, refl);
  capabilities = (refl, refl);
  ceremonies = (refl, refl);
  sessions = (refl, refl);
  recoveries = (refl, refl);
}

has_approved-IsConsistent : IsConsistent has_approved
unfolding store_run
has_approved-IsConsistent = record {
  users = (refl, refl);
  credentials = (refl, refl);
  capabilities = (refl, refl);
  ceremonies = (refl, refl);
  sessions = (refl, refl);
  recoveries = (refl, refl);
}

-- A log-in and a second use of its token's hash, which fails.
run-IsConsistent_example : IsConsistent (
    run print_uuid
      ((healthy, 10, logs_in 11 verified granted (event_of (bytes "ann")))
        ∷ (healthy, 12, logs_in 11 verified granted (event_of (bytes "ann")))
        ∷ [])
      tables)
run-IsConsistent_example =
    run-IsConsistent print_uuid
      ((healthy, 10, logs_in 11 verified granted (event_of (bytes "ann")))
        ∷ (healthy, 12, logs_in 11 verified granted (event_of (bytes "ann")))
        ∷ [])
      tables tables-IsConsistent

logged_out-ends_example :
    (resume_session healthy hash_a 12 80 (
      run print_uuid
        ((healthy, 11, logs_in 11 verified granted (event_of (bytes "ann"))) ∷ [])
        (delete_session healthy hash_a tables).0)).1
    ≢ ok (
        some (record { session_id = 31; user = ann; csrf_hash = hash_b; absolute_expires_at = 90 }))
unfolding store_run
logged_out-ends_example =
    logged_out-ends healthy hash_a tables refl refl print_uuid
      ((healthy, 11, logs_in 11 verified granted (event_of (bytes "ann"))) ∷ []) healthy 12 80
      (record { session_id = 31; user = ann; csrf_hash = hash_b; absolute_expires_at = 90 })

capability_used_once_example :
    (complete_registration healthy 62 13 (some hash_b) new_passkey 20 (event_of (bytes "ann")) (
      run print_uuid
        ((broken, 15, logs_out hash_a) ∷ [])
        (complete_registration healthy 61 12
          (some hash_b)
          new_passkey
          10
          (event_of (bytes "ann"))
          has_capability).0)).1
    ≢ ok tt
unfolding store_run
capability_used_once_example =
    capability_used_once healthy 61 12 hash_b new_passkey 10 (event_of (bytes "ann")) has_capability
      has_capability-IsConsistent refl print_uuid ((broken, 15, logs_out hash_a) ∷ []) healthy 62 13
      new_passkey 20 (event_of (bytes "ann"))

approve_recovery_once_example :
    (approve_recovery healthy print_uuid 41 (bytes "root") 20 (
      run print_uuid
        ((healthy, 15, creates_recovery 42 (bytes "ann")) ∷ [])
        (approve_recovery healthy print_uuid 41 (bytes "root") 10 tables).0)).1
    ≢ ok tt
unfolding store_run
approve_recovery_once_example =
    approve_recovery_once healthy print_uuid 41 (bytes "root") 10 tables tables-IsConsistent refl
      ((healthy, 15, creates_recovery 42 (bytes "ann")) ∷ []) healthy (bytes "root") 20

issue_recovery_setup_once_example :
    (issue_recovery_setup healthy print_uuid 41 setup_capability (bytes "root") 20 (
      run print_uuid
        ((healthy, 15, logs_out hash_a) ∷ [])
        (issue_recovery_setup healthy print_uuid 41 setup_capability
          (bytes "root")
          10
          has_approved).0)).1
    ≢ ok tt
unfolding store_run
issue_recovery_setup_once_example =
    issue_recovery_setup_once healthy print_uuid 41 setup_capability (bytes "root") 10 has_approved
      has_approved-IsConsistent refl ((healthy, 15, logs_out hash_a) ∷ []) healthy setup_capability
      (bytes "root") 20

-- The user's session 31, and a login after the approval.
abbrev later_login : List (Database × Time × StoreCall)
later_login =
    (healthy, 11, logs_in 11 verified (record granted { auth_epoch = 4 }) (event_of (bytes "ann")))
    ∷ []

approve_recovery-signs_out_example :
    (resume_session healthy hash_a 12 80 (
      run print_uuid later_login
        (approve_recovery healthy print_uuid 41 (bytes "root") 10 tables).0)).1
    ≢ ok (
        some (record { session_id = 31; user = ann; csrf_hash = hash_b; absolute_expires_at = 90 }))
unfolding store_run
approve_recovery-signs_out_example =
    approve_recovery-signs_out healthy print_uuid 41 (bytes "root") 10 tables pending_row hash_a
      tables-IsConsistent refl refl refl later_login healthy 12 80
      (record { session_id = 31; user = ann; csrf_hash = hash_b; absolute_expires_at = 90 })
