-- ===== src/Server/Rows.antt =====
-- The rows of the tables of server/migrations/0001_human_auth.sql, and how server/src/repository.rs
-- reads them as the types of auth. A column that may be null is an option.
use rs_console.Common.{ℕ, Bool, Option, none, some, List, [], ◌∷◌, Text, Result, ◌>>=◌, ok, err}
use rs_console.Policy.Canonical.{Json}
use rs_console.Policy.Ids.{PolicyError, new_id}
use rs_console.Auth.Types.{
  Time, Uuid, User, StoredCredential, Ceremony, Capability, RecoveryRequest, AuditEvent, AuthError,
  store_failed,
}
use rs_console.Auth.Tokens.{from_slice}
use rs_console.Server.Names.{parse_role, parse_purpose, parse_ceremony_kind}

-- A row of `human_users`.
pub record UserRow : Type 0 where
  pub id : Text
  pub webauthn_handle : Uuid
  pub email : Text
  pub display_name : Text
  pub role : Text
  pub enabled : Bool
  pub auth_epoch : ℕ
  pub created_at : Time
  pub updated_at : Time

-- A row of `passkey_credentials`.
pub record CredentialRow : Type 0 where
  pub id : Uuid
  pub user_id : Text
  pub credential_id : Text
  pub public_data : Json
  pub created_at : Time
  pub last_used_at : Option Time
  pub revoked_at : Option Time

-- A row of `auth_capabilities`.
pub record CapabilityRow : Type 0 where
  pub id : Uuid
  pub user_id : Text
  pub purpose : Text
  pub token_hash : Text
  pub expires_at : Time
  pub consumed_at : Option Time
  pub created_at : Time

-- A row of `auth_ceremonies`.
pub record CeremonyRow : Type 0 where
  pub id : Uuid
  pub kind : Text
  pub user_id : Option Text
  pub capability_hash : Option Text
  pub state : Json
  pub expires_at : Time
  pub consumed_at : Option Time

-- A row of `auth_sessions`.
pub record SessionRow : Type 0 where
  pub id : Uuid
  pub user_id : Text
  pub token_hash : Text
  pub csrf_hash : Text
  pub auth_epoch : ℕ
  pub idle_expires_at : Time
  pub absolute_expires_at : Time
  pub created_at : Time
  pub last_seen_at : Time
  pub revoked_at : Option Time

-- A row of `recovery_requests`.
pub record RecoveryRow : Type 0 where
  pub id : Uuid
  pub user_id : Text
  pub requested_at : Time
  pub approved_at : Option Time
  pub approved_by : Option Text
  pub setup_issued_at : Option Time
  pub completed_at : Option Time

-- A row of `auth_audit_events`.
pub record AuditRow : Type 0 where
  pub occurred_at : Time
  pub event : AuditEvent

-- `map_err(|_| AuthError::Store)`.
abbrev pub or_store {ℓ} : {A : Type ℓ} → Result PolicyError A → Result AuthError A
or_store (ok a) = ok a
or_store (err e) = err store_failed

-- `transpose` of an optional conversion.
abbrev pub transpose {ℓ κ} :
    {A : Type ℓ} {B : Type κ} → (A → Result AuthError B) → Option A → Result AuthError (Option B)
transpose f none = ok none
transpose f (some a) = do b ← f a; ok (some b)

-- `collect` of the conversions of a list.
abbrev pub collect {ℓ κ} :
    {A : Type ℓ} {B : Type κ} → (A → Result AuthError B) → List A → Result AuthError (List B)
collect f [] = ok []
collect f (a ∷ rest) = do b ← f a; bs ← collect f rest; ok (b ∷ bs)

unfoldable pub user_of_row : UserRow → Result AuthError User
user_of_row row = do
  id ← or_store (new_id row.id)
  role ← parse_role row.role
  ok (record {
    id = id;
    webauthn_handle = row.webauthn_handle;
    email = row.email;
    display_name = row.display_name;
    role = role;
    enabled = row.enabled;
    auth_epoch = row.auth_epoch;
  })

unfoldable pub credential_of_row : CredentialRow → Result AuthError StoredCredential
credential_of_row row = do
  user_id ← or_store (new_id row.user_id)
  ok (record {
    id = row.id;
    user_id = user_id;
    credential_id = row.credential_id;
    public_data = row.public_data;
    revoked_at = row.revoked_at;
  })

unfoldable pub capability_of_row : CapabilityRow → Result AuthError Capability
capability_of_row row = do
  user_id ← or_store (new_id row.user_id)
  purpose ← parse_purpose row.purpose
  token_hash ← from_slice row.token_hash
  ok (record {
    id = row.id;
    user_id = user_id;
    purpose = purpose;
    token_hash = token_hash;
    expires_at = row.expires_at;
  })

unfoldable pub ceremony_of_row : CeremonyRow → Result AuthError Ceremony
ceremony_of_row row = do
  kind ← parse_ceremony_kind row.kind
  user_id ← transpose (λ id. or_store (new_id id)) row.user_id
  capability_hash ← transpose from_slice row.capability_hash
  ok (record {
    id = row.id;
    kind = kind;
    user_id = user_id;
    capability_hash = capability_hash;
    state = row.state;
    expires_at = row.expires_at;
  })

unfoldable pub recovery_of_row : RecoveryRow → Result AuthError RecoveryRequest
recovery_of_row row = do
  user_id ← or_store (new_id row.user_id)
  ok (record {
    id = row.id;
    user_id = user_id;
    requested_at = row.requested_at;
    approved_at = row.approved_at;
  })
