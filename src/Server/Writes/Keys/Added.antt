-- ===== src/Server/Writes/Keys/Added.antt =====
-- The insertions of server/src/repository.rs against the constraints of the tables.
use rs_console.Common.{
  ◌≡◌, sym, subst, false, ◌&&◌, ◌||◌, none, List, [], ◌∷◌, ◌++◌, arith, Text, ◌==◌, nat_eq, text_eq,
  bool_eq, any,
}
use rs_console.Server.Writes.Keys.{
  same_credential, same_capability, same_ceremony, same_session, same_recovery, credential_allowed,
  capability_allowed, ceremony_allowed, session_allowed, recovery_allowed, IsConsistent,
  set_credentials, set_capabilities, set_ceremonies, set_sessions, set_recoveries,
}
use rs_console.Auth.Types.{
  Time, Uuid, VerifiedCredential, Ceremony, Capability, SessionRecord, AuditEvent,
}
use rs_console.Server.Tables.{
  Tables, user_exists, user_exists_or_null, capability_row, add_capability, ceremony_row,
  add_ceremony, add_credential, add_session, is_pending, add_recovery, add_audit, inserted,
}
use rs_console.Server.Rows.{
  CredentialRow, CapabilityRow, CeremonyRow, SessionRow, RecoveryRow, AuditRow,
}
use rs_console.Server.Writes.Distinct.{append-IsRows}

pub add_capability-IsConsistent :
    (c : Capability) (clock : Time) (t t' : Tables)
    → add_capability c clock t ≡ inserted t'
    → IsConsistent t
    → IsConsistent t'
unfolding add_capability user_exists
add_capability-IsConsistent c clock t t' e h =
    let row : CapabilityRow = capability_row c clock in
    let made : t' ≡ record t { capabilities = t.capabilities ++ (row ∷ []) } = ground arith in
    subst IsConsistent (sym made) (
      set_capabilities t _ h (
        append-IsRows same_capability (capability_allowed t.users) t.capabilities row h.capabilities
          (ground arith) (ground arith)))

pub add_ceremony-IsConsistent :
    (c : Ceremony) (t t' : Tables)
    → add_ceremony c t ≡ inserted t'
    → IsConsistent t
    → IsConsistent t'
unfolding add_ceremony user_exists_or_null user_exists
add_ceremony-IsConsistent c t t' e h =
    let row : CeremonyRow = ceremony_row c in
    let made : t' ≡ record t { ceremonies = t.ceremonies ++ (row ∷ []) } = ground arith in
    subst IsConsistent (sym made) (
      set_ceremonies t _ h (
        append-IsRows same_ceremony (ceremony_allowed t.users) t.ceremonies row h.ceremonies
          (ground arith) (ground arith)))

abbrev pub credential_row : Uuid → Text → VerifiedCredential → Time → CredentialRow
credential_row id user_id c now = record {
  id = id;
  user_id = user_id;
  credential_id = c.credential_id;
  public_data = c.public_data;
  created_at = now;
  last_used_at = none;
  revoked_at = none;
}

pub add_credential-IsConsistent :
    (id : Uuid) (user_id : Text) (c : VerifiedCredential) (now : Time) (t t' : Tables)
    → add_credential id user_id c now t ≡ inserted t'
    → IsConsistent t
    → IsConsistent t'
unfolding add_credential user_exists
add_credential-IsConsistent id user_id c now t t' e h =
    let row : CredentialRow = credential_row id user_id c now in
    let made : t' ≡ record t { credentials = t.credentials ++ (row ∷ []) } = ground arith in
    subst IsConsistent (sym made) (
      set_credentials t _ h (
        append-IsRows same_credential (credential_allowed t.users) t.credentials row h.credentials
          (ground arith) (ground arith)))

abbrev pub session_inserted : SessionRecord → Time → SessionRow
session_inserted s now = record {
  id = s.id;
  user_id = s.user_id;
  token_hash = s.token_hash;
  csrf_hash = s.csrf_hash;
  auth_epoch = s.auth_epoch;
  idle_expires_at = s.idle_expires_at;
  absolute_expires_at = s.absolute_expires_at;
  created_at = now;
  last_seen_at = now;
  revoked_at = none;
}

pub add_session-IsConsistent :
    (s : SessionRecord) (now : Time) (t t' : Tables)
    → add_session s now t ≡ inserted t'
    → IsConsistent t
    → IsConsistent t'
unfolding add_session user_exists
add_session-IsConsistent s now t t' e h =
    let row : SessionRow = session_inserted s now in
    let made : t' ≡ record t { sessions = t.sessions ++ (row ∷ []) } = ground arith in
    subst IsConsistent (sym made) (
      set_sessions t _ h (
        append-IsRows same_session (session_allowed t.users) t.sessions row h.sessions
          (ground arith) (ground arith)))

abbrev pub recovery_row : Uuid → Text → Time → RecoveryRow
recovery_row id user_id now = record {
  id = id;
  user_id = user_id;
  requested_at = now;
  approved_at = none;
  approved_by = none;
  setup_issued_at = none;
  completed_at = none;
}

recovery-any :
    (id : Uuid) (user_id : Text) (now : Time) (rs : List RecoveryRow)
    → any (λ r. r.id == id || r.user_id == user_id && is_pending r) rs ≡ false
    → any (λ r. same_recovery r (recovery_row id user_id now)) rs ≡ false
recovery-any id user_id now [] h = h
recovery-any id user_id now (r ∷ rs) h = ground (arith, recovery-any id user_id now rs)

pub add_recovery-IsConsistent :
    (id : Uuid) (user_id : Text) (now : Time) (t t' : Tables)
    → add_recovery id user_id now t ≡ inserted t'
    → IsConsistent t
    → IsConsistent t'
unfolding add_recovery user_exists
add_recovery-IsConsistent id user_id now t t' e h =
    let row : RecoveryRow = recovery_row id user_id now in
    let made : t' ≡ record t { recoveries = t.recoveries ++ (row ∷ []) } = ground arith in
    subst IsConsistent (sym made) (
      set_recoveries t _ h (
        append-IsRows same_recovery (recovery_allowed t.users) t.recoveries row h.recoveries
          (recovery-any id user_id now t.recoveries (ground arith)) (ground arith)))

pub add_audit-IsConsistent :
    (e : AuditEvent) (now : Time) (t t' : Tables)
    → add_audit e now t ≡ inserted t'
    → IsConsistent t
    → IsConsistent t'
unfolding add_audit
add_audit-IsConsistent e now t t' made h =
    let row : AuditRow = record { occurred_at = now; event = e } in
    let same : t' ≡ record t { audit = t.audit ++ (row ∷ []) } = ground arith in
    subst IsConsistent (sym same) (record {
      users = h.users;
      credentials = h.credentials;
      capabilities = h.capabilities;
      ceremonies = h.ceremonies;
      sessions = h.sessions;
      recoveries = h.recoveries;
    })
