-- ===== src/Server/Tables.antt =====
-- The tables of server/migrations/0001_human_auth.sql, as lists of rows in the order in which the
-- rows were inserted, with the constraints that an insertion is checked against.
use rs_console.Common.{
  Bool, true, false, not, ◌&&◌, ◌||◌, Option, none, some, List, [], ◌∷◌, ◌++◌, if◌then◌else◌, Text,
  ◌==◌, nat_eq, text_eq, bool_eq, length, any, Result, ok, err,
}
use rs_console.Auth.Types.{
  Time, Uuid, User, VerifiedCredential, Ceremony, Capability, SessionRecord, AuditEvent, AuthError,
  store_failed, conflict,
}
use rs_console.Server.Names.{role_name, purpose_name, ceremony_name}
use rs_console.Server.Rows.{
  UserRow, CredentialRow, CapabilityRow, CeremonyRow, SessionRow, RecoveryRow, AuditRow,
}
use rs_console.Server.Transaction.{Database, statement}

pub record Tables : Type 0 where
  pub users : List UserRow
  pub credentials : List CredentialRow
  pub capabilities : List CapabilityRow
  pub ceremonies : List CeremonyRow
  pub sessions : List SessionRow
  pub recoveries : List RecoveryRow
  pub audit : List AuditRow

-- `IS NULL`.
abbrev pub is_null {ℓ} : {A : Type ℓ} → Option A → Bool
is_null none = true
is_null (some a) = false

-- `UPDATE .. SET .. WHERE`.
abbrev pub update {ℓ} : {A : Type ℓ} → (A → Bool) → (A → A) → List A → List A
update where_ set [] = []
update where_ set (row ∷ rows) =
    if where_ row then set row ∷ update where_ set rows else row ∷ update where_ set rows

abbrev pub select {ℓ} : {A : Type ℓ} → (A → Bool) → List A → List A
select where_ [] = []
select where_ (row ∷ rows) =
    let rest = select where_ rows in if where_ row then row ∷ rest else rest

-- `rows_affected() != 1`.
abbrev pub affects_one {ℓ} : {A : Type ℓ} → (A → Bool) → List A → Bool
affects_one where_ rows = length (select where_ rows) == 1

-- `REFERENCES human_users(id)`.
unfoldable pub user_exists : Text → Tables → Bool
user_exists id t = any (λ u. u.id == id) t.users

unfoldable pub user_exists_or_null : Option Text → Tables → Bool
unfolding user_exists
user_exists_or_null none t = true
user_exists_or_null (some id) t = user_exists id t

-- How an insertion ends: the constraints fall into those of uniqueness and the others.
pub data Inserted : Type 0 where
  inserted : Tables → Inserted
  not_unique violated : Inserted

unfoldable pub add_user : User → Time → Tables → Inserted
unfolding role_name
add_user user now t =
    if any
      (λ u. u.id == user.id || u.webauthn_handle == user.webauthn_handle || u.email == user.email)
      t.users
    then not_unique
    else if user.auth_epoch == 0
    then violated
    else inserted (record t {
      users =
          t.users
          ++ (record {
            id = user.id;
            webauthn_handle = user.webauthn_handle;
            email = user.email;
            display_name = user.display_name;
            role = role_name user.role;
            enabled = user.enabled;
            auth_epoch = user.auth_epoch;
            created_at = now;
            updated_at = now;
          }
              ∷ []);
    })

abbrev pub capability_row : Capability → Time → CapabilityRow
capability_row capability clock = record {
  id = capability.id;
  user_id = capability.user_id;
  purpose = purpose_name capability.purpose;
  token_hash = capability.token_hash;
  expires_at = capability.expires_at;
  consumed_at = none;
  created_at = clock;
}

unfoldable pub add_capability : Capability → Time → Tables → Inserted
unfolding user_exists
add_capability capability clock t =
    if any (λ c. c.id == capability.id || c.token_hash == capability.token_hash) t.capabilities
    then not_unique
    else if not (user_exists capability.user_id t && length capability.token_hash == 32)
    then violated
    else inserted
        (record t { capabilities = t.capabilities ++ (capability_row capability clock ∷ []) })

-- `capability_hash IS NULL OR octet_length(capability_hash) = 32`.
abbrev pub null_or_hash : Option Text → Bool
null_or_hash none = true
null_or_hash (some hash) = length hash == 32

abbrev pub ceremony_row : Ceremony → CeremonyRow
ceremony_row ceremony = record {
  id = ceremony.id;
  kind = ceremony_name ceremony.kind;
  user_id = ceremony.user_id;
  capability_hash = ceremony.capability_hash;
  state = ceremony.state;
  expires_at = ceremony.expires_at;
  consumed_at = none;
}

unfoldable pub add_ceremony : Ceremony → Tables → Inserted
unfolding user_exists_or_null
add_ceremony ceremony t =
    if any (λ c. c.id == ceremony.id) t.ceremonies
    then not_unique
    else if not (user_exists_or_null ceremony.user_id t && null_or_hash ceremony.capability_hash)
    then violated
    else inserted (record t { ceremonies = t.ceremonies ++ (ceremony_row ceremony ∷ []) })

unfoldable pub add_credential : Uuid → Text → VerifiedCredential → Time → Tables → Inserted
unfolding user_exists
add_credential id user_id credential now t =
    if any (λ c. c.id == id || c.credential_id == credential.credential_id) t.credentials
    then not_unique
    else if not (user_exists user_id t)
    then violated
    else inserted (record t {
      credentials =
          t.credentials
          ++ (record {
            id = id;
            user_id = user_id;
            credential_id = credential.credential_id;
            public_data = credential.public_data;
            created_at = now;
            last_used_at = none;
            revoked_at = none;
          }
              ∷ []);
    })

unfoldable pub add_session : SessionRecord → Time → Tables → Inserted
unfolding user_exists
add_session session now t =
    if any (λ s. s.id == session.id || s.token_hash == session.token_hash) t.sessions
    then not_unique
    else if not (
        user_exists session.user_id t
        && length session.token_hash == 32
        && length session.csrf_hash == 32)
    then violated
    else inserted (record t {
      sessions =
          t.sessions
          ++ (record {
            id = session.id;
            user_id = session.user_id;
            token_hash = session.token_hash;
            csrf_hash = session.csrf_hash;
            auth_epoch = session.auth_epoch;
            idle_expires_at = session.idle_expires_at;
            absolute_expires_at = session.absolute_expires_at;
            created_at = now;
            last_seen_at = now;
            revoked_at = none;
          }
              ∷ []);
    })

-- The index `one_pending_recovery_per_user`.
abbrev pub is_pending : RecoveryRow → Bool
is_pending r = is_null r.approved_at && is_null r.completed_at

unfoldable pub add_recovery : Uuid → Text → Time → Tables → Inserted
unfolding user_exists
add_recovery id user_id now t =
    if any (λ r. r.id == id || r.user_id == user_id && is_pending r) t.recoveries
    then not_unique
    else if not (user_exists user_id t)
    then violated
    else inserted (record t {
      recoveries =
          t.recoveries
          ++ (record {
            id = id;
            user_id = user_id;
            requested_at = now;
            approved_at = none;
            approved_by = none;
            setup_issued_at = none;
            completed_at = none;
          }
              ∷ []);
    })

unfoldable pub add_audit : AuditEvent → Time → Tables → Inserted
unfolding user_exists_or_null
add_audit event now t =
    if user_exists_or_null event.actor_user_id t && user_exists_or_null event.subject_user_id t
    then inserted
        (record t { audit = t.audit ++ (record { occurred_at = now; event = event } ∷ []) })
    else violated

-- An insertion whose errors are all `AuthError::Store`.
abbrev pub insert_or_store : Inserted → Result AuthError Tables
insert_or_store (inserted t) = ok t
insert_or_store not_unique = err store_failed
insert_or_store violated = err store_failed

-- One whose violated uniqueness is `AuthError::Conflict`.
abbrev pub insert_unique : Inserted → Result AuthError Tables
insert_unique (inserted t) = ok t
insert_unique not_unique = err conflict
insert_unique violated = err store_failed

-- One whose violated constraints are `AuthError::Conflict`.
abbrev pub insert_constrained : Inserted → Result AuthError Tables
insert_constrained (inserted t) = ok t
insert_constrained not_unique = err conflict
insert_constrained violated = err conflict

-- `insert_audit`.
unfoldable pub insert_audit : Database → AuditEvent → Time → Tables → Result AuthError Tables
insert_audit db event now t = statement db 232 (insert_or_store (add_audit event now t))
