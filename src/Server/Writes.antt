-- ===== src/Server/Writes.antt =====
-- What server/src/repository.rs does to the tables, statement by statement: every transaction of the
-- store is a sequence of these writes.
pub mod Bodies
pub mod Revocations
pub mod Runs
pub mod Distinct
pub mod Keys
pub mod Settled
use rs_console.Common.{◌≡◌, Bool, Option, some, Text}
use rs_console.Policy.Canonical.{Json}
use rs_console.Auth.Types.{
  Time, Uuid, SecretHash, User, VerifiedCredential, Ceremony, Capability, SessionRecord, AuditEvent,
}
use rs_console.Server.Rows.{
  UserRow, CredentialRow, CapabilityRow, CeremonyRow, SessionRow, RecoveryRow,
}
use rs_console.Server.Tables.{
  Tables, update, add_user, add_capability, add_ceremony, add_credential, add_session, add_recovery,
  add_audit, inserted,
}
use rs_console.Server.Ceremonies.{
  consume_ceremony, consume_capability, is_issued, complete_recovery,
}
use rs_console.Server.Sessions.{touch}
use rs_console.Server.Users.{advance_epoch}
use rs_console.Server.Recoveries.{is_pending_request, is_approved_request}

abbrev pub revoke_session : Time → SessionRow → SessionRow
revoke_session now s = record s { revoked_at = some now }

abbrev pub revoke_credential : Time → CredentialRow → CredentialRow
revoke_credential now c = record c { revoked_at = some now }

abbrev pub use_credential : Json → Time → CredentialRow → CredentialRow
use_credential value now c = record c { public_data = value; last_used_at = some now }

abbrev pub approve_row : Time → Text → RecoveryRow → RecoveryRow
approve_row now operator_id r = record r { approved_at = some now; approved_by = some operator_id }

abbrev pub issue_row : Time → RecoveryRow → RecoveryRow
issue_row now r = record r { setup_issued_at = some now }

-- One statement that writes, from the tables before to those after.
pub data Write (t t' : Tables) : Type 0 where
  user_added : (user : User) (now : Time) → add_user user now t ≡ inserted t' → Write t t'
  epochs_advanced :
      (p : UserRow → Bool) (now : Time)
      → t' ≡ record t { users = update p (advance_epoch now) t.users }
      → Write t t'
  credential_added :
      (id : Uuid) (user_id : Text) (c : VerifiedCredential) (now : Time)
      → add_credential id user_id c now t ≡ inserted t'
      → Write t t'
  credential_used :
      (p : CredentialRow → Bool) (value : Json) (now : Time)
      → t' ≡ record t { credentials = update p (use_credential value now) t.credentials }
      → Write t t'
  credential_revoked :
      (p : CredentialRow → Bool) (now : Time)
      → t' ≡ record t { credentials = update p (revoke_credential now) t.credentials }
      → Write t t'
  capability_added :
      (c : Capability) (clock : Time) → add_capability c clock t ≡ inserted t' → Write t t'
  capability_consumed :
      (p : CapabilityRow → Bool) (now : Time)
      → t' ≡ record t { capabilities = update p (consume_capability now) t.capabilities }
      → Write t t'
  ceremony_added : (c : Ceremony) → add_ceremony c t ≡ inserted t' → Write t t'
  ceremony_consumed :
      (p : CeremonyRow → Bool) (now : Time)
      → t' ≡ record t { ceremonies = update p (consume_ceremony now) t.ceremonies }
      → Write t t'
  session_added : (s : SessionRecord) (now : Time) → add_session s now t ≡ inserted t' → Write t t'
  session_touched :
      (p : SessionRow → Bool) (id : Uuid) (csrf_hash : Option SecretHash) (idle now : Time)
      → t' ≡ record t { sessions = update p (touch id csrf_hash idle now) t.sessions }
      → Write t t'
  session_revoked :
      (p : SessionRow → Bool) (now : Time)
      → t' ≡ record t { sessions = update p (revoke_session now) t.sessions }
      → Write t t'
  recovery_added :
      (id : Uuid) (user_id : Text) (now : Time)
      → add_recovery id user_id now t ≡ inserted t'
      → Write t t'
  recovery_approved :
      (id : Uuid) (now : Time) (operator_id : Text)
      → t' ≡ record t {
        recoveries = update (is_pending_request id) (approve_row now operator_id) t.recoveries;
      }
      → Write t t'
  recovery_issued :
      (id : Uuid) (user_id : Text) (now : Time)
      → t' ≡ record t {
        recoveries = update (is_approved_request id user_id) (issue_row now) t.recoveries;
      }
      → Write t t'
  recovery_completed :
      (user_id : Option Text) (now : Time)
      → t'
        ≡ record t { recoveries = update (is_issued user_id) (complete_recovery now) t.recoveries }
      → Write t t'
  event_added : (e : AuditEvent) (now : Time) → add_audit e now t ≡ inserted t' → Write t t'

-- A sequence of them.
pub data Writes (t' : Tables) : Tables → Type 0 where
  done : Writes t' t'
  then : (t u : Tables) → Write t u → Writes t' u → Writes t' t

-- What every write keeps, a sequence of them keeps.
pub Writes-keep :
    (P : Tables → Type 0)
    → ((t t' : Tables) → Write t t' → P t → P t')
    → (t t' : Tables) → Writes t' t
    → P t
    → P t'
Writes-keep P keep t t' w h =
    elim w as (λ t _. P t → P t') [
      | done ↦ λ h. h
      | then t u first (rest → ih) ↦ λ h. ih (keep t u first h)
    ]
      h
