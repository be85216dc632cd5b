-- ===== src/Server/Writes/Keys.antt =====
-- The constraints of server/migrations/0001_human_auth.sql as a predicate on the tables of
-- server/src/repository.rs.
pub mod Keep
pub mod Added
pub mod Runs
use rs_console.Common.{
  Bool, true, not, ◌&&◌, ◌||◌, Option, none, some, List, Text, ◌==◌, nat_eq, text_eq, bool_eq,
  length, any,
}
use rs_console.Server.Rows.{
  UserRow, CredentialRow, CapabilityRow, CeremonyRow, SessionRow, RecoveryRow,
}
use rs_console.Server.Tables.{Tables, null_or_hash, is_pending}
use rs_console.Server.Writes.Distinct.{IsRows}

-- Whether two rows share a key that the table makes unique.
abbrev pub same_user : UserRow → UserRow → Bool
same_user u v = u.id == v.id || u.webauthn_handle == v.webauthn_handle || u.email == v.email

abbrev pub same_credential : CredentialRow → CredentialRow → Bool
same_credential c d = c.id == d.id || c.credential_id == d.credential_id

abbrev pub same_capability : CapabilityRow → CapabilityRow → Bool
same_capability c d = c.id == d.id || c.token_hash == d.token_hash

abbrev pub same_ceremony : CeremonyRow → CeremonyRow → Bool
same_ceremony c d = c.id == d.id

abbrev pub same_session : SessionRow → SessionRow → Bool
same_session s r = s.id == r.id || s.token_hash == r.token_hash

-- A user has one pending recovery at most.
abbrev pub same_recovery : RecoveryRow → RecoveryRow → Bool
same_recovery r s = r.id == s.id || r.user_id == s.user_id && is_pending r && is_pending s

abbrev pub known : List UserRow → Text → Bool
known users id = any (λ u. u.id == id) users

abbrev pub known_or_null : List UserRow → Option Text → Bool
known_or_null users none = true
known_or_null users (some id) = known users id

-- The epoch of a user is positive, and what a row refers to is there.
abbrev pub has_epoch : UserRow → Bool
has_epoch u = not (u.auth_epoch == 0)

abbrev pub credential_allowed : List UserRow → CredentialRow → Bool
credential_allowed users c = known users c.user_id

abbrev pub capability_allowed : List UserRow → CapabilityRow → Bool
capability_allowed users c = known users c.user_id && length c.token_hash == 32

abbrev pub ceremony_allowed : List UserRow → CeremonyRow → Bool
ceremony_allowed users c = known_or_null users c.user_id && null_or_hash c.capability_hash

abbrev pub session_allowed : List UserRow → SessionRow → Bool
session_allowed users s = known users s.user_id && length s.token_hash == 32

abbrev pub recovery_allowed : List UserRow → RecoveryRow → Bool
recovery_allowed users r = known users r.user_id

-- The tables meet the constraints.
pub record IsConsistent (t : Tables) : Type 0 where
  pub users : IsRows same_user has_epoch t.users
  pub credentials : IsRows same_credential (credential_allowed t.users) t.credentials
  pub capabilities : IsRows same_capability (capability_allowed t.users) t.capabilities
  pub ceremonies : IsRows same_ceremony (ceremony_allowed t.users) t.ceremonies
  pub sessions : IsRows same_session (session_allowed t.users) t.sessions
  pub recoveries : IsRows same_recovery (recovery_allowed t.users) t.recoveries

-- One table changed, with its constraints.
pub set_credentials :
    (t : Tables) (rows : List CredentialRow)
    → IsConsistent t
    → IsRows same_credential (credential_allowed t.users) rows
    → IsConsistent (record t { credentials = rows })
set_credentials t rows h new = record {
  users = h.users;
  credentials = new;
  capabilities = h.capabilities;
  ceremonies = h.ceremonies;
  sessions = h.sessions;
  recoveries = h.recoveries;
}

pub set_capabilities :
    (t : Tables) (rows : List CapabilityRow)
    → IsConsistent t
    → IsRows same_capability (capability_allowed t.users) rows
    → IsConsistent (record t { capabilities = rows })
set_capabilities t rows h new = record {
  users = h.users;
  credentials = h.credentials;
  capabilities = new;
  ceremonies = h.ceremonies;
  sessions = h.sessions;
  recoveries = h.recoveries;
}

pub set_ceremonies :
    (t : Tables) (rows : List CeremonyRow)
    → IsConsistent t
    → IsRows same_ceremony (ceremony_allowed t.users) rows
    → IsConsistent (record t { ceremonies = rows })
set_ceremonies t rows h new = record {
  users = h.users;
  credentials = h.credentials;
  capabilities = h.capabilities;
  ceremonies = new;
  sessions = h.sessions;
  recoveries = h.recoveries;
}

pub set_sessions :
    (t : Tables) (rows : List SessionRow)
    → IsConsistent t
    → IsRows same_session (session_allowed t.users) rows
    → IsConsistent (record t { sessions = rows })
set_sessions t rows h new = record {
  users = h.users;
  credentials = h.credentials;
  capabilities = h.capabilities;
  ceremonies = h.ceremonies;
  sessions = new;
  recoveries = h.recoveries;
}

pub set_recoveries :
    (t : Tables) (rows : List RecoveryRow)
    → IsConsistent t
    → IsRows same_recovery (recovery_allowed t.users) rows
    → IsConsistent (record t { recoveries = rows })
set_recoveries t rows h new = record {
  users = h.users;
  credentials = h.credentials;
  capabilities = h.capabilities;
  ceremonies = h.ceremonies;
  sessions = h.sessions;
  recoveries = new;
}
