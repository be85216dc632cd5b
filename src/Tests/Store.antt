-- ===== src/Tests/Store.antt =====
-- The theorems on server/src/repository.rs at concrete inputs.
use rs_console.Common.{
  ℕ, ◌≤◌, ◌≡◌, refl, ◌≢◌, ◌⊎◌, true, none, some, List, [], ◌∷◌, ◌++◌, bytes, ◌==◌, nat_eq, text_eq,
  bool_eq, length, find, ok,
}
use rs_console.Auth.Types.{Time, Role, CeremonyKind, conflict}
use rs_console.Server.Rows.{UserRow, CapabilityRow, SessionRow, RecoveryRow, user_of_row}
use rs_console.Server.Tables.{update, capability_row}
use rs_console.Server.Transaction.{answer_lost}
use rs_console.Server.Queries.{operator_credentials}
use rs_console.Server.Ceremonies.{complete_registration, complete_authentication}
use rs_console.Server.Sessions.{resume_session}
use rs_console.Server.Sessions.Valid.{IsHonoured, resume_session-ok}
use rs_console.Server.Recoveries.{is_pending_request, approve_recovery, break_glass}
use rs_console.Server.Recoveries.Revoked.{
  IsRevoked, approve_recovery-IsRevoked, break_glass-IsRevoked,
}
use rs_console.Server.Calls.{step, run, rotates_all, logs_out, breaks_glass}
use rs_console.Server.Calls.Atomic.{step-atomic}
use rs_console.Server.Calls.Once.{complete_authentication_once, complete_registration_once}
use rs_console.Server.Calls.Audited.{IsAudited, run-IsAudited}
use rs_console.Server.Calls.Guards.{bootstrap_first}
use rs_console.Tests.Database.{
  store_run, healthy, broken, print_uuid, hash_a, hash_b, open_row, tables, bootstrap_tables,
  event_of, verified, granted, new_passkey, window, ann,
}

-- A second login with the ceremony of the first, after the session of the first was ended.
complete_authentication_once_example :
    (complete_authentication healthy 11 verified granted 20 (event_of (bytes "ann")) (
      run print_uuid
        ((healthy, 15, logs_out hash_b) ∷ [])
        (complete_authentication healthy 11 verified granted 10
          (event_of (bytes "ann"))
          tables).0)).1
    ≢ ok tt
unfolding store_run
complete_authentication_once_example =
    complete_authentication_once 11 healthy verified granted 10 (event_of (bytes "ann")) tables refl
      refl print_uuid ((healthy, 15, logs_out hash_b) ∷ []) healthy verified granted 20
      (event_of (bytes "ann"))

complete_registration_once_example :
    (complete_registration healthy 62 12 none new_passkey 20 (event_of (bytes "ann")) (
      run print_uuid []
        (complete_registration healthy 61 12 none new_passkey 10
          (event_of (bytes "ann"))
          tables).0)).1
    ≢ ok tt
unfolding store_run
complete_registration_once_example =
    complete_registration_once 12 healthy 61 none new_passkey 10 (event_of (bytes "ann")) tables
      refl refl print_uuid [] healthy 62 none new_passkey 20 (event_of (bytes "ann"))

step-atomic_example :
    ((step healthy print_uuid 10 (breaks_glass 22 window (bytes "lost")) tables).0 ≡ tables)
    ⊎ ((line : ℕ) × (healthy.commit line ≡ answer_lost))
unfolding store_run
step-atomic_example =
    step-atomic healthy print_uuid 10 (breaks_glass 22 window (bytes "lost")) tables conflict refl
      refl

resume_session-ok_example :
    (s : SessionRow) × (u : UserRow) × IsHonoured hash_a 10 tables s u
    × (31 ≡ s.id)
    × (bytes "ann" ≡ u.id)
    × (hash_b ≡ s.csrf_hash)
    × (90 ≡ s.absolute_expires_at)
    × (user_of_row u ≡ ok ann)
    × ((ends : Time) × (ends ≤ 200)
        × (ends ≤ s.absolute_expires_at)
        × ((ends ≡ 200) ⊎ (ends ≡ s.absolute_expires_at))
        × ((resume_session healthy hash_a 10 200 tables).0 ≡ record tables {
          sessions =
              update
                (λ r. r.id == s.id)
                (λ r. record r { idle_expires_at = ends; last_seen_at = 10 })
                tables.sessions;
        }))
unfolding store_run
resume_session-ok_example =
    resume_session-ok healthy hash_a 10 200 tables
      (record {
        session_id = 31;
        user = record {
          id = bytes "ann";
          webauthn_handle = 2;
          email = bytes "ann@example.org";
          display_name = bytes "ann";
          role = Role.user;
          enabled = true;
          auth_epoch = 3;
        };
        csrf_hash = hash_b;
        absolute_expires_at = 90;
      })
      refl

approve_recovery-IsRevoked_example :
    (r : RecoveryRow) × (find (is_pending_request 41) tables.recoveries ≡ some r)
    × IsRevoked r.user_id tables (approve_recovery healthy print_uuid 41 (bytes "root") 10 tables).0
unfolding store_run
approve_recovery-IsRevoked_example =
    approve_recovery-IsRevoked healthy print_uuid 41 (bytes "root") 10 tables refl

break_glass-IsRevoked_example :
    (kept : List CapabilityRow) × ((break_glass healthy print_uuid 21 window 10
        (bytes "lost")
        tables).0.capabilities
      ≡ kept ++ (capability_row window 50 ∷ []))
    × IsRevoked
        (bytes "root")
        tables
        (record (break_glass healthy print_uuid 21 window 10 (bytes "lost") tables).0 {
          capabilities = kept;
        })
unfolding store_run
break_glass-IsRevoked_example =
    break_glass-IsRevoked healthy print_uuid 21 window 10 (bytes "lost") tables refl

bootstrap_first_example : length (operator_credentials bootstrap_tables) ≡ 0
unfolding store_run
bootstrap_first_example =
    bootstrap_first healthy 61 11 none new_passkey 10 (event_of (bytes "root")) bootstrap_tables
      (open_row 11 CeremonyKind.operator_bootstrap (some (bytes "root"))) refl refl refl

run-IsAudited_example :
    IsAudited tables.audit
      (run print_uuid
        ((healthy, 15, logs_out hash_a) ∷ (broken, 16, rotates_all (bytes "leaked")) ∷ [])
        tables).audit
run-IsAudited_example =
    run-IsAudited print_uuid
      ((healthy, 15, logs_out hash_a) ∷ (broken, 16, rotates_all (bytes "leaked")) ∷ []) tables
