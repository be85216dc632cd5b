-- ===== src/Tests/Database.antt =====
-- Tables for the tests of server/src/repository.rs, and what its calls unfold.
use rs_console.Common.{
  true, false, Option, none, some, [], ◌∷◌, ◌++◌, ℕ_discrete, Text, bytes, Text-discrete,
}
use rs_console.Policy.Canonical.{null, object, end}
use rs_console.Policy.Ids.{
  is_ascii_digit, is_ascii_alphanumeric, is_opaque_character, valid_opaque_id, new_id,
}
use rs_console.Auth.Types.{
  Uuid, SecretHash, Role, User, VerifiedCredential, AuthenticationVerification, CeremonyKind,
  CapabilityPurpose, Capability, SessionRecord, AuditEvent,
}
use rs_console.Auth.Tokens.{from_slice}
use rs_console.Server.Names.{role_name, parse_role, purpose_name, ceremony_name}
use rs_console.Server.Rows.{
  UserRow, CredentialRow, CeremonyRow, SessionRow, RecoveryRow, user_of_row,
}
use rs_console.Server.Tables.{
  Tables, user_exists, user_exists_or_null, add_user, add_capability, add_ceremony, add_credential,
  add_session, add_recovery, add_audit, insert_audit,
}
use rs_console.Server.Transaction.{Database, made}
use rs_console.Server.Queries.{operator_credentials}
use rs_console.Server.Ceremonies.{
  returned_user, insert_capability, insert_ceremony, check_bootstrap, use_capability, register,
  complete_registration, log_in, complete_authentication,
}
use rs_console.Server.Sessions.{
  session_user, valid_session, touch_session, principal_of, resume_session, delete_session,
}
use rs_console.Server.Users.{
  advance_epochs, fetch_ones, seed, insert_user, approve, approve_user_with_setup, rotate,
  rotate_all_auth_epochs,
}
use rs_console.Server.Recoveries.{
  create_recovery, invalidate_user_auth, approve_request, approve_recovery, issue,
  issue_recovery_setup, open_window, break_glass,
}
use rs_console.Server.Calls.{step, run}
use rs_console.Server.Calls.Atomic.{is_resumption}

unfoldable pub store_run : Unit {0}
unfolding step run insert_capability insert_ceremony insert_user approve_user_with_setup
    rotate_all_auth_epochs complete_registration complete_authentication create_recovery
    approve_recovery issue_recovery_setup break_glass delete_session resume_session register log_in
    rotate fetch_ones approve seed approve_request issue open_window invalidate_user_auth
    advance_epochs insert_audit add_audit add_session add_credential add_capability add_ceremony
    add_user add_recovery user_exists user_exists_or_null use_capability check_bootstrap
    returned_user operator_credentials valid_session session_user touch_session principal_of
    user_of_row parse_role role_name purpose_name ceremony_name from_slice new_id valid_opaque_id
    is_opaque_character is_ascii_alphanumeric is_ascii_digit is_resumption Text-discrete ℕ_discrete
store_run = tt

-- A database that does all it is asked, and one whose statements all fail.
abbrev pub healthy : Database
healthy = record {
  clock = 50;
  fails = λ line. false;
  commit = λ line. made;
  decodes_int4_as_i64 = false;
}

abbrev pub broken : Database
broken = record {
  clock = 50;
  fails = λ line. true;
  commit = λ line. made;
  decodes_int4_as_i64 = false;
}

abbrev pub print_uuid : Uuid → Text
print_uuid id = bytes "7"

abbrev pub hash_a : SecretHash
hash_a = bytes "0123456789abcdef0123456789abcdef"

abbrev pub hash_b : SecretHash
hash_b = bytes "fedcba9876543210fedcba9876543210"

abbrev pub row_of_user : Text → Text → Uuid → UserRow
row_of_user id role handle = record {
  id = id;
  webauthn_handle = handle;
  email = id ++ bytes "@example.org";
  display_name = id;
  role = role;
  enabled = true;
  auth_epoch = 3;
  created_at = 1;
  updated_at = 1;
}

abbrev pub passkey : Text → Uuid → CredentialRow
passkey user_id id = record {
  id = id;
  user_id = user_id;
  credential_id = id ∷ [];
  public_data = null;
  created_at = 2;
  last_used_at = none;
  revoked_at = none;
}

abbrev pub open_row : Uuid → CeremonyKind → Option Text → CeremonyRow
open_row id kind user_id = record {
  id = id;
  kind = ceremony_name kind;
  user_id = user_id;
  capability_hash = none;
  state = null;
  expires_at = 100;
  consumed_at = none;
}

abbrev pub session_row : SessionRow
session_row = record {
  id = 31;
  user_id = bytes "ann";
  token_hash = hash_a;
  csrf_hash = hash_b;
  auth_epoch = 3;
  idle_expires_at = 60;
  absolute_expires_at = 90;
  created_at = 5;
  last_seen_at = 5;
  revoked_at = none;
}

abbrev pub pending_row : RecoveryRow
pending_row = record {
  id = 41;
  user_id = bytes "ann";
  requested_at = 8;
  approved_at = none;
  approved_by = none;
  setup_issued_at = none;
  completed_at = none;
}

abbrev pub tables : Tables
tables = record {
  users =
      row_of_user (bytes "root") (bytes "operator") 1
      ∷ row_of_user (bytes "ann") (bytes "user") 2
      ∷ [];
  credentials = passkey (bytes "root") 21 ∷ passkey (bytes "ann") 22 ∷ [];
  capabilities = [];
  ceremonies =
      open_row 11 CeremonyKind.authentication none
      ∷ open_row 12 CeremonyKind.registration (some (bytes "ann"))
      ∷ [];
  sessions = session_row ∷ [];
  recoveries = pending_row ∷ [];
  audit = [];
}

-- Before the operator has a credential.
abbrev pub bootstrap_tables : Tables
bootstrap_tables = record {
  users = row_of_user (bytes "root") (bytes "operator") 1 ∷ [];
  credentials = [];
  capabilities = [];
  ceremonies = open_row 11 CeremonyKind.operator_bootstrap (some (bytes "root")) ∷ [];
  sessions = [];
  recoveries = [];
  audit = [];
}

abbrev pub event_of : Text → AuditEvent
event_of id = record {
  event_type = bytes "test";
  actor_user_id = some id;
  subject_user_id = some id;
  data_value = object end;
}

abbrev pub verified : AuthenticationVerification
verified = record { credential_id = 22 ∷ []; updated_public_data = null }

abbrev pub granted : SessionRecord
granted = record {
  id = 32;
  user_id = bytes "ann";
  token_hash = hash_b;
  csrf_hash = hash_a;
  auth_epoch = 3;
  idle_expires_at = 80;
  absolute_expires_at = 90;
}

abbrev pub new_passkey : VerifiedCredential
new_passkey = record { credential_id = 23 ∷ []; public_data = null }

abbrev pub window : Capability
window = record {
  id = 51;
  user_id = bytes "root";
  purpose = CapabilityPurpose.operator_recovery;
  token_hash = hash_b;
  expires_at = 99;
}

abbrev pub ann : User
ann = record {
  id = bytes "ann";
  webauthn_handle = 2;
  email = bytes "ann@example.org";
  display_name = bytes "ann";
  role = Role.user;
  enabled = true;
  auth_epoch = 3;
}

-- The operator has a session too.
abbrev pub root_session : SessionRow
root_session = record session_row { id = 33; user_id = bytes "root"; token_hash = hash_b }

abbrev pub two_sessions : Tables
two_sessions = record tables { sessions = session_row ∷ root_session ∷ [] }
