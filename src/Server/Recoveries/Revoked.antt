-- ===== src/Server/Recoveries/Revoked.antt =====
-- A user's authority after a recovery or a break-glass recovery (server/src/repository.rs).
use rs_console.Common.{
  ℕ, ◌+◌, ◌≡◌, refl, inl, inr, Bool, true, not, ◌&&◌, ◌||◌, Option, none, some, List, [], ◌∷◌, ◌++◌,
  arith, if◌then◌else◌, Text, ◌==◌, nat_eq, text_eq, bool_eq, Option-cases, all, find, Result-cases,
  ok,
}
use rs_console.Policy.Ids.{UserId}
use rs_console.Auth.Types.{Time, Uuid, Capability}
use rs_console.Server.Rows.{UserRow, CapabilityRow, CeremonyRow, SessionRow, RecoveryRow}
use rs_console.Server.Tables.{
  Tables, is_null, update, capability_row, add_capability, add_audit, insert_audit,
}
use rs_console.Server.Transaction.{Database}
use rs_console.Server.Ceremonies.{consume_ceremony, consume_capability}
use rs_console.Server.Users.{advance_epoch, advance_epochs}
use rs_console.Server.Recoveries.{
  is_of, is_pending_request, is_operator_credential, invalidate_user_auth, approve_request,
  approve_recovery, open_window, break_glass,
}
use rs_console.Server.Calls.Atomic.{transaction-ok}

-- All sessions of the user are revoked, all ceremonies and capabilities consumed.
abbrev pub sessions_revoked : Text → List SessionRow → Bool
sessions_revoked user_id ss = all (λ s. not (s.user_id == user_id) || not (is_null s.revoked_at)) ss

abbrev pub ceremonies_consumed : Text → List CeremonyRow → Bool
ceremonies_consumed user_id cs =
    all (λ c. not (is_of user_id c.user_id) || not (is_null c.consumed_at)) cs

abbrev pub capabilities_consumed : Text → List CapabilityRow → Bool
capabilities_consumed user_id cs =
    all (λ c. not (c.user_id == user_id) || not (is_null c.consumed_at)) cs

-- The user's epoch, if there is the user.
abbrev pub epoch_of : Text → List UserRow → Option ℕ
epoch_of user_id [] = none
epoch_of user_id (u ∷ us) = if u.id == user_id then some u.auth_epoch else epoch_of user_id us

abbrev pub later : Option ℕ → Option ℕ
later none = none
later (some epoch) = some (epoch + 1)

update-sessions_revoked :
    (user_id : Text) (now : Time) (ss : List SessionRow)
    → sessions_revoked user_id (
        update
          (λ s. s.user_id == user_id && is_null s.revoked_at)
          (λ s. record s { revoked_at = some now })
          ss)
      ≡ true
update-sessions_revoked user_id now [] = refl
update-sessions_revoked user_id now (s ∷ ss) =
    ground (arith, update-sessions_revoked user_id now ss)

update-ceremonies_consumed :
    (user_id : Text) (now : Time) (cs : List CeremonyRow)
    → ceremonies_consumed user_id
        (update (λ c. is_of user_id c.user_id && is_null c.consumed_at) (consume_ceremony now) cs)
      ≡ true
update-ceremonies_consumed user_id now [] = refl
update-ceremonies_consumed user_id now (c ∷ cs) =
    ground (arith, update-ceremonies_consumed user_id now cs)

update-capabilities_consumed :
    (user_id : Text) (now : Time) (cs : List CapabilityRow)
    → capabilities_consumed user_id
        (update (λ c. c.user_id == user_id && is_null c.consumed_at) (consume_capability now) cs)
      ≡ true
update-capabilities_consumed user_id now [] = refl
update-capabilities_consumed user_id now (c ∷ cs) =
    ground (arith, update-capabilities_consumed user_id now cs)

update-epoch_of :
    (user_id : Text) (now : Time) (us : List UserRow)
    → epoch_of user_id (update (λ u. u.id == user_id) (advance_epoch now) us)
      ≡ later (epoch_of user_id us)
update-epoch_of user_id now [] = refl
update-epoch_of user_id now (u ∷ us) = ground (arith, update-epoch_of user_id now us)

-- What `invalidate_user_auth` leaves: no session, ceremony or capability of the user is open, and the
-- user's epoch has advanced by one.
abbrev pub IsRevoked : Text → Tables → Tables → Type 0
IsRevoked user_id t t' =
    (sessions_revoked user_id t'.sessions ≡ true)
    × (ceremonies_consumed user_id t'.ceremonies ≡ true)
    × (capabilities_consumed user_id t'.capabilities ≡ true)
    × (epoch_of user_id t'.users ≡ later (epoch_of user_id t.users))

invalidate-IsRevoked :
    (db : Database) (user_id : Text) (now : Time) (t t' : Tables)
    → invalidate_user_auth db user_id now t ≡ ok t'
    → IsRevoked user_id t t'
unfolding invalidate_user_auth advance_epochs
invalidate-IsRevoked db user_id now t t' h = ground (
  arith,
  update-sessions_revoked user_id now t.sessions,
  update-ceremonies_consumed user_id now t.ceremonies,
  update-capabilities_consumed user_id now t.capabilities,
  update-epoch_of user_id now t.users,
)

approve_request-IsRevoked :
    (db : Database) (print : Uuid → Text) (id : Uuid) (operator_id : UserId) (now : Time)
    (t t' : Tables)
    → approve_request db print id operator_id now t ≡ ok (t', tt)
    → (r : RecoveryRow) × (find (is_pending_request id) t.recoveries ≡ some r)
      × IsRevoked r.user_id t t'
unfolding approve_request insert_audit add_audit
approve_request-IsRevoked db print id operator_id now t t' h =
    elim (Option-cases (find (is_pending_request id) t.recoveries)) [
      | inl e ↦ absurd (ground arith)
      | inr (r, e) ↦
          elim (Result-cases (
            invalidate_user_auth db r.user_id now (record t {
              recoveries =
                  update (is_pending_request id)
                    (λ r. record r { approved_at = some now; approved_by = some operator_id })
                    t.recoveries;
            }))) [
              | inl (t2, invalidated) ↦
                  let revoked = invalidate-IsRevoked db r.user_id now _ t2 invalidated in
                  (r, e, ground arith)
              | inr (x, refused) ↦ absurd (ground arith)
            ]
    ]

-- An approved recovery leaves the user who asked for it without authority: every session of the user
-- is revoked, every ceremony and capability is consumed, and the user's epoch has advanced by one.
pub approve_recovery-IsRevoked :
    (db : Database) (print : Uuid → Text) (id : Uuid) (operator_id : UserId) (now : Time)
    (t : Tables)
    → (approve_recovery db print id operator_id now t).1 ≡ ok tt
    → (r : RecoveryRow) × (find (is_pending_request id) t.recoveries ≡ some r)
      × IsRevoked r.user_id t (approve_recovery db print id operator_id now t).0
unfolding approve_recovery
approve_recovery-IsRevoked db print id operator_id now t h =
    approve_request-IsRevoked db print id operator_id now t _ (transaction-ok db 953 979 t _ tt h)

open_window-IsRevoked :
    (db : Database) (print : Uuid → Text) (id : Uuid) (capability : Capability) (now : Time)
    (reason : Text) (t t' : Tables)
    → open_window db print id capability now reason t ≡ ok (t', tt)
    → (kept : List CapabilityRow) × (t'.capabilities
        ≡ kept ++ (capability_row capability db.clock ∷ []))
      × IsRevoked capability.user_id t (record t' { capabilities = kept })
unfolding open_window insert_audit add_audit add_capability
open_window-IsRevoked db print id capability now reason t t' h =
    elim (Option-cases (find (is_operator_credential id t.users) t.credentials)) [
      | inl e ↦ absurd (ground arith)
      | inr (c, e) ↦
          elim (Result-cases (
            invalidate_user_auth db c.user_id now (record t {
              credentials =
                  update (is_operator_credential id t.users)
                    (λ c. record c { revoked_at = some now }) t.credentials;
            }))) [
              | inl (t2, invalidated) ↦
                  let revoked = invalidate-IsRevoked db c.user_id now _ t2 invalidated in
                  (t2.capabilities, ground arith, ground arith)
              | inr (x, refused) ↦ absurd (ground arith)
            ]
    ]

-- A break-glass recovery leaves the operator without authority but for the one new capability: every
-- session is revoked, every ceremony and every other capability is consumed, and the epoch has
-- advanced by one.
pub break_glass-IsRevoked :
    (db : Database) (print : Uuid → Text) (id : Uuid) (capability : Capability) (now : Time)
    (reason : Text) (t : Tables)
    → (break_glass db print id capability now reason t).1 ≡ ok tt
    → (kept : List CapabilityRow) × ((break_glass db print id capability now reason
          t).0.capabilities
        ≡ kept ++ (capability_row capability db.clock ∷ []))
      × IsRevoked capability.user_id t
          (record (break_glass db print id capability now reason t).0 { capabilities = kept })
unfolding break_glass
break_glass-IsRevoked db print id capability now reason t h =
    open_window-IsRevoked db print id capability now reason t _
      (transaction-ok db 1039 1085 t _ tt h)
