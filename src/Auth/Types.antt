-- ===== src/Auth/Types.antt =====
-- The types of auth/src/lib.rs. A time is a number of microseconds, an `Uuid` a number, a
-- `serde_json::Value` a `Json`, an array of bytes a text whose length is checked where it is made.
use rs_console.Common.{ℕ, ◌*◌, Bool, Option, Text}
use rs_console.Policy.Ids.{UserId}
use rs_console.Policy.Canonical.{Json}

abbrev pub Time : Type 0
Time = ℕ

abbrev pub Uuid : Type 0
Uuid = ℕ

-- 32 random bytes.
abbrev pub SecretToken : Type 0
SecretToken = Text

-- The SHA-256 of a token.
abbrev pub SecretHash : Type 0
SecretHash = Text

pub data Role : Type 0 where
  user operator : Role

pub record User : Type 0 where
  pub id : UserId
  pub webauthn_handle : Uuid
  pub email : Text
  pub display_name : Text
  pub role : Role
  pub enabled : Bool
  pub auth_epoch : ℕ

pub record StoredCredential : Type 0 where
  pub id : Uuid
  pub user_id : UserId
  pub credential_id : Text
  pub public_data : Json
  pub revoked_at : Option Time

pub record VerifiedCredential : Type 0 where
  pub credential_id : Text
  pub public_data : Json

pub record AuthenticationVerification : Type 0 where
  pub credential_id : Text
  pub updated_public_data : Json

pub data CeremonyKind : Type 0 where
  registration authentication operator_bootstrap operator_recovery : CeremonyKind

pub record Ceremony : Type 0 where
  pub id : Uuid
  pub kind : CeremonyKind
  pub user_id : Option UserId
  pub capability_hash : Option SecretHash
  pub state : Json
  pub expires_at : Time

pub data CapabilityPurpose : Type 0 where
  setup recovery_setup operator_recovery : CapabilityPurpose

pub record Capability : Type 0 where
  pub id : Uuid
  pub user_id : UserId
  pub purpose : CapabilityPurpose
  pub token_hash : SecretHash
  pub expires_at : Time

pub record SessionRecord : Type 0 where
  pub id : Uuid
  pub user_id : UserId
  pub token_hash : SecretHash
  pub csrf_hash : SecretHash
  pub auth_epoch : ℕ
  pub idle_expires_at : Time
  pub absolute_expires_at : Time

pub record SessionGrant : Type 0 where
  pub token : SecretToken
  pub csrf : SecretToken
  pub session : SessionRecord

pub record SessionPrincipal : Type 0 where
  pub session_id : Uuid
  pub user : User
  pub csrf_hash : SecretHash
  pub absolute_expires_at : Time

pub record RecoveryRequest : Type 0 where
  pub id : Uuid
  pub user_id : UserId
  pub requested_at : Time
  pub approved_at : Option Time

pub record AuditEvent : Type 0 where
  pub event_type : Text
  pub actor_user_id : Option UserId
  pub subject_user_id : Option UserId
  pub data_value : Json

pub data AuthError : Type 0 where
  invalid_input invalid_token invalid_state unauthenticated : AuthError
  forbidden verification_failed store_failed conflict : AuthError

pub record AuthConfig : Type 0 where
  pub ceremony_ttl : ℕ
  pub capability_ttl : ℕ
  pub session_idle_ttl : ℕ
  pub session_absolute_ttl : ℕ

-- `Duration::minutes`.
abbrev pub minutes : ℕ → ℕ
minutes n = n * (60 * 1000000)

-- `Default for AuthConfig`.
abbrev pub default_config : AuthConfig
default_config = record {
  ceremony_ttl = minutes 5;
  capability_ttl = minutes 15;
  session_idle_ttl = minutes 30;
  session_absolute_ttl = minutes (12 * 60);
}
