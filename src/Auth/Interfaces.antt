-- ===== src/Auth/Interfaces.antt =====
-- The traits `CeremonyEngine` and `AuthStore` of auth/src/lib.rs, and the calls that the service
-- makes of a store. A call takes the store's state and returns it with the result.
use rs_console.Common.{ℕ, Bool, Option, List, Text, Result, ok, err}
use rs_console.Policy.Ids.{UserId}
use rs_console.Policy.Canonical.{Json}
use rs_console.Auth.Types.{
  Time, Uuid, SecretHash, User, StoredCredential, VerifiedCredential, AuthenticationVerification,
  CeremonyKind, Ceremony, CapabilityPurpose, Capability, SessionRecord, SessionPrincipal,
  RecoveryRequest, AuditEvent, AuthError,
}

pub record CeremonyEngine : Type 0 where
  pub start_registration : User → List StoredCredential → Result AuthError (Json × Json)
  pub finish_registration : Json → Json → Result AuthError VerifiedCredential
  pub start_authentication : Result AuthError (Json × Json)
  pub authentication_user_handle : Json → Result AuthError Uuid
  pub finish_authentication :
      Json → Json → List StoredCredential → Result AuthError AuthenticationVerification

-- A call that may change the state.
abbrev pub Call : Type 0 → Type 0 → Type 0
Call S A = S → S × Result AuthError A

module _ {S A : Type 0} where
  -- A call that only reads.
  abbrev pub reading : (S → Result AuthError A) → Call S A
  reading f s = (s, f s)

  -- A step that needs no store.
  abbrev pub lift : Result AuthError A → Call S A
  lift r s = (s, r)

module _ {S A B : Type 0} where
  abbrev pub continue_with : S × Result AuthError A → (A → Call S B) → S × Result AuthError B
  continue_with (s, err e) f = (s, err e)
  continue_with (s, ok a) f = f a s

  infixl 5 ◌>>=◌
  abbrev pub ◌>>=◌ : Call S A → (A → Call S B) → Call S B
  (m >>= f) s = continue_with (m s) f

pub record AuthStore (S : Type 0) : Type 0 where
  pub user_by_id : S → UserId → Result AuthError (Option User)
  pub user_by_handle : S → Uuid → Result AuthError (Option User)
  pub credentials_for_user : S → UserId → Result AuthError (List StoredCredential)
  pub operator_without_credential : S → Result AuthError (Option User)
  pub operator_exists : S → Result AuthError Bool
  pub operator_recovery_window : S → Time → Result AuthError (Option (User × SecretHash))
  pub capability : S → SecretHash → CapabilityPurpose → Time → Result AuthError (Option Capability)
  pub insert_capability : Capability → Call S (Unit {0})
  pub insert_user : User → Time → AuditEvent → Call S (Unit {0})
  pub approve_user_with_setup : User → Capability → UserId → Time → Call S (Unit {0})
  pub rotate_all_auth_epochs : Time → Text → Call S ℕ
  pub insert_ceremony : Ceremony → Call S (Unit {0})
  pub ceremony : S → Uuid → CeremonyKind → Time → Result AuthError (Option Ceremony)
  pub complete_registration :
      Uuid → Option SecretHash → VerifiedCredential → Time → AuditEvent → Call S (Unit {0})
  pub complete_authentication :
      Uuid → AuthenticationVerification → SessionRecord → Time → AuditEvent → Call S (Unit {0})
  pub session : SecretHash → Time → Time → Call S (Option SessionPrincipal)
  pub rotate_session_csrf : SecretHash → SecretHash → Time → Time → Call S (Option SessionPrincipal)
  pub delete_session : SecretHash → Call S (Unit {0})
  pub create_recovery : UserId → Time → Call S RecoveryRequest
  pub pending_recoveries : S → Result AuthError (List RecoveryRequest)
  pub approve_recovery : Uuid → UserId → Time → Call S (Unit {0})
  pub issue_recovery_setup : Uuid → Capability → UserId → Time → Call S (Unit {0})
  pub break_glass : Uuid → Capability → Time → Text → Call S (Unit {0})
