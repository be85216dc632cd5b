-- ===== src/Server/Writes/Keys/Keep.antt =====
-- Each write of server/src/repository.rs against the constraints of the tables.
use rs_console.Common.{
  ◌≡◌, refl, sym, subst, Bool, true, Option, none, some, List, [], ◌∷◌, ◌++◌, arith, Text,
}
use rs_console.Server.Writes.Keys.{
  same_user, same_credential, same_capability, same_ceremony, same_session, same_recovery, known,
  known_or_null, has_epoch, credential_allowed, capability_allowed, ceremony_allowed,
  session_allowed, recovery_allowed, IsConsistent,
}
use rs_console.Server.Tables.{Tables, update, add_user, inserted}
use rs_console.Auth.Types.{Time, User}
use rs_console.Server.Rows.{UserRow}
use rs_console.Server.Writes.Distinct.{IsRows, append-IsRows, update-IsRows, weaken-IsRows}
use rs_console.Server.Users.{advance_epoch}
use rs_console.Server.Names.{role_name}

known_or_null-grow :
    (us vs : List UserRow)
    → ((id : Text) → known us id ≡ true → known vs id ≡ true)
    → (id : Option Text) → known_or_null us id ≡ true
    → known_or_null vs id ≡ true
known_or_null-grow us vs f none h = refl
known_or_null-grow us vs f (some id) h = f id h

-- The other tables when users are only added or changed.
grow-IsConsistent :
    (t : Tables) (vs : List UserRow)
    → ((id : Text) → known t.users id ≡ true → known vs id ≡ true)
    → IsRows same_user has_epoch vs
    → IsConsistent t
    → IsConsistent (record t { users = vs })
grow-IsConsistent t vs f users h = record {
  users = users;
  credentials =
      weaken-IsRows same_credential (credential_allowed t.users) (credential_allowed vs)
        t.credentials (λ c k. f c.user_id k) h.credentials;
  capabilities =
      weaken-IsRows same_capability (capability_allowed t.users) (capability_allowed vs)
        t.capabilities (λ c k. ground (arith, f c.user_id)) h.capabilities;
  ceremonies =
      weaken-IsRows same_ceremony (ceremony_allowed t.users) (ceremony_allowed vs) t.ceremonies
        (λ c k. ground (arith, known_or_null-grow t.users vs f c.user_id)) h.ceremonies;
  sessions =
      weaken-IsRows same_session (session_allowed t.users) (session_allowed vs) t.sessions
        (λ s k. ground (arith, f s.user_id)) h.sessions;
  recoveries =
      weaken-IsRows same_recovery (recovery_allowed t.users) (recovery_allowed vs) t.recoveries
        (λ r k. f r.user_id k) h.recoveries;
}

known-append :
    (us : List UserRow) (u : UserRow) (id : Text)
    → known us id ≡ true
    → known (us ++ (u ∷ [])) id ≡ true
known-append [] u id h = cc
known-append (v ∷ us) u id h = ground (arith, known-append us u id)

known-advance :
    (p : UserRow → Bool) (now : Time) (us : List UserRow) (id : Text)
    → known us id ≡ true
    → known (update p (advance_epoch now) us) id ≡ true
known-advance p now [] id h = h
known-advance p now (v ∷ us) id h = ground (arith, known-advance p now us id)

abbrev user_row : User → Time → UserRow
user_row user now = record {
  id = user.id;
  webauthn_handle = user.webauthn_handle;
  email = user.email;
  display_name = user.display_name;
  role = role_name user.role;
  enabled = user.enabled;
  auth_epoch = user.auth_epoch;
  created_at = now;
  updated_at = now;
}

pub add_user-IsConsistent :
    (user : User) (now : Time) (t t' : Tables)
    → add_user user now t ≡ inserted t'
    → IsConsistent t
    → IsConsistent t'
unfolding add_user
add_user-IsConsistent user now t t' e h =
    let vs : List UserRow = t.users ++ (user_row user now ∷ []) in
    let made : t' ≡ record t { users = vs } = ground arith in
    subst IsConsistent (sym made) (
      grow-IsConsistent t vs (known-append t.users (user_row user now))
        (append-IsRows same_user has_epoch t.users (user_row user now) h.users (ground arith)
          (ground arith))
        h)

pub advance-IsConsistent :
    (p : UserRow → Bool) (now : Time) (t : Tables)
    → IsConsistent t
    → IsConsistent (record t { users = update p (advance_epoch now) t.users })
advance-IsConsistent p now t h =
    grow-IsConsistent t (update p (advance_epoch now) t.users) (known-advance p now t.users)
      (update-IsRows same_user has_epoch p (advance_epoch now) t.users (λ u v k. (k, k, k))
        (λ u k. ground arith) h.users)
      h
