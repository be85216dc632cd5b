-- ===== src/Server/Names.antt =====
-- How server/src/repository.rs writes the enumerations into the database, and reads them back.
use rs_console.Common.{
  ◌≡◌, refl, ◌↔◌, arith, ℕ_discrete, if◌then◌else◌, Text, bytes, ◌==◌, Text-discrete, nat_eq,
  text_eq, bool_eq, Result, ok, err,
}
use rs_console.Auth.Types.{Role, CeremonyKind, CapabilityPurpose, AuthError, store_failed}

unfoldable pub role_name : Role → Text
role_name Role.user = bytes "user"
role_name Role.operator = bytes "operator"

unfoldable pub parse_role : Text → Result AuthError Role
parse_role role =
    if role == bytes "user"
    then ok Role.user
    else if role == bytes "operator"
    then ok Role.operator
    else err store_failed

unfoldable pub purpose_name : CapabilityPurpose → Text
purpose_name CapabilityPurpose.setup = bytes "setup"
purpose_name CapabilityPurpose.recovery_setup = bytes "recovery_setup"
purpose_name CapabilityPurpose.operator_recovery = bytes "operator_recovery"

unfoldable pub parse_purpose : Text → Result AuthError CapabilityPurpose
parse_purpose value =
    if value == bytes "setup"
    then ok CapabilityPurpose.setup
    else if value == bytes "recovery_setup"
    then ok CapabilityPurpose.recovery_setup
    else if value == bytes "operator_recovery"
    then ok CapabilityPurpose.operator_recovery
    else err store_failed

unfoldable pub ceremony_name : CeremonyKind → Text
ceremony_name CeremonyKind.registration = bytes "registration"
ceremony_name CeremonyKind.authentication = bytes "authentication"
ceremony_name CeremonyKind.operator_bootstrap = bytes "operator_bootstrap"
ceremony_name CeremonyKind.operator_recovery = bytes "operator_recovery"

unfoldable pub parse_ceremony_kind : Text → Result AuthError CeremonyKind
parse_ceremony_kind value =
    if value == bytes "registration"
    then ok CeremonyKind.registration
    else if value == bytes "authentication"
    then ok CeremonyKind.authentication
    else if value == bytes "operator_bootstrap"
    then ok CeremonyKind.operator_bootstrap
    else if value == bytes "operator_recovery"
    then ok CeremonyKind.operator_recovery
    else err store_failed

-- A stored role is read as a role exactly when it is the name of that role; every other text is
-- refused.
pub parse_role_iff :
    (text : Text) (role : Role) → (parse_role text ≡ ok role) ↔ (text ≡ role_name role)
unfolding parse_role role_name Text-discrete ℕ_discrete
parse_role_iff text Role.user = (λ h. ground arith, λ e. rw e refl)
parse_role_iff text Role.operator = (λ h. ground arith, λ e. rw e refl)

-- A stored purpose is read as a purpose exactly when it is the name of that purpose.
pub parse_purpose_iff :
    (text : Text) (purpose : CapabilityPurpose)
    → (parse_purpose text ≡ ok purpose) ↔ (text ≡ purpose_name purpose)
unfolding parse_purpose purpose_name Text-discrete ℕ_discrete
parse_purpose_iff text CapabilityPurpose.setup = (λ h. ground arith, λ e. rw e refl)
parse_purpose_iff text CapabilityPurpose.recovery_setup = (λ h. ground arith, λ e. rw e refl)
parse_purpose_iff text CapabilityPurpose.operator_recovery = (λ h. ground arith, λ e. rw e refl)

-- A stored kind is read as a kind exactly when it is the name of that kind.
pub parse_ceremony_kind_iff :
    (text : Text) (kind : CeremonyKind)
    → (parse_ceremony_kind text ≡ ok kind) ↔ (text ≡ ceremony_name kind)
unfolding parse_ceremony_kind ceremony_name Text-discrete ℕ_discrete
parse_ceremony_kind_iff text CeremonyKind.registration = (λ h. ground arith, λ e. rw e refl)
parse_ceremony_kind_iff text CeremonyKind.authentication = (λ h. ground arith, λ e. rw e refl)
parse_ceremony_kind_iff text CeremonyKind.operator_bootstrap = (λ h. ground arith, λ e. rw e refl)
parse_ceremony_kind_iff text CeremonyKind.operator_recovery = (λ h. ground arith, λ e. rw e refl)
