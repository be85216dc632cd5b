-- ===== src/Tests/Enrolment.antt =====
-- The tests of policy/src/vpn.rs, and its theorems at concrete inputs.
use rs_console.Common.{
  ◌+◌, ◌≡◌, refl, true, false, List, [], ◌∷◌, map, arith, ℕ_discrete, if◌then◌else◌, Text, bytes,
  Text-discrete, Bool-discrete, ok, err,
}
use rs_console.Common.Map.{get, contains_key, insert, remove, values}
use rs_console.Policy.Ids.{valid_opaque_id, invalid_address, invalid_generated_at}
use rs_console.Policy.Address.{OverlayAddress, new_address, display, from_str}
use rs_console.Policy.Address.RoundTrip.{from_str-display, display-from_str}
use rs_console.Policy.Timestamp.{valid_utc_timestamp}
use rs_console.Policy.Manifest.{
  Permission, VpnPeer, from_vpn_peer, PeerManifest, new_manifest, on_demand, egress,
}
use rs_console.Policy.Manifest.Order.{IsManifest, new_manifest-IsManifest}
use rs_console.Policy.Vpn.{
  VpnPolicy, default, allocate_address, has_key, new_peer, enroll, set_games, rotate_key, revoke,
  manifest, returned,
}
use rs_console.Policy.Vpn.Pool.{hosts, IsLowestFree}
use rs_console.Policy.Vpn.Invariant.{IsValid}
use rs_console.Policy.Vpn.History.{Change, step, run, run-IsValid, enrolls, sets_games}
use rs_console.Policy.Vpn.Enrolment.{enroll_new}
use rs_console.Policy.Vpn.Desired.{manifest_of_IsValid}
use rs_console.Common.Order.{text_ltb}
use rs_console.Policy.Vpn.Registry.Views.{Simulates}
use rs_console.Policy.Vpn.Registry.Refines.{run-refines}

-- One line for all that a run of the policy computes with.
policy_run : Unit {0}
unfolding run enroll set_games rotate_key revoke allocate_address contains_key get insert remove
    text_ltb Text-discrete Bool-discrete ℕ_discrete
policy_run = tt

abbrev enrolments : List Change
enrolments =
    enrolls (bytes "user-b") (bytes "peer-b") (bytes "key-1") false
    ∷ enrolls (bytes "user-a") (bytes "peer-a") (bytes "key-2") true
    ∷ sets_games (bytes "peer-b") true
    ∷ sets_games (bytes "peer-b") true
    ∷ []

-- The addresses are stable, the peers in order, and a change without effect keeps the generation.
two_peers : run default enrolments ≡ record {
  generation = 4;
  peers =
      (
        bytes "peer-a",
        new_peer
            (bytes "user-a")
            (bytes "peer-a")
            (bytes "key-2")
            (record { a = 10; b = 100; c = 0; d = 3 })
            true,
      )
      ∷ (
        bytes "peer-b",
        new_peer
            (bytes "user-b")
            (bytes "peer-b")
            (bytes "key-1")
            (record { a = 10; b = 100; c = 0; d = 2 })
            true,
      )
      ∷ [];
}
unfolding policy_run
two_peers = refl

identifiers :
    (valid_opaque_id (bytes "user-1") ≡ true)
    × (valid_opaque_id (bytes "-user") ≡ false)
    × (valid_opaque_id [] ≡ false)
    × (valid_opaque_id (bytes "a b") ≡ false)
unfolding valid_opaque_id ℕ_discrete
identifiers = (refl, refl, refl, refl)

timestamps :
    (valid_utc_timestamp (bytes "2026-02-29T25:00:00Z") ≡ false)
    × (valid_utc_timestamp (bytes "2024-02-29T23:59:59.123Z") ≡ true)
    × (valid_utc_timestamp (bytes "2023-02-29T23:59:59Z") ≡ false)
    × (valid_utc_timestamp (bytes "2026-08-01T20:00:00.Z") ≡ false)
unfolding valid_utc_timestamp ℕ_discrete
timestamps = (refl, refl, refl, refl)

addresses :
    (from_str (bytes "10.100.2.2/32") ≡ err invalid_address)
    × (from_str (bytes "10.100.0.02/32") ≡ err invalid_address)
    × (from_str (bytes "10.100.0.255/32") ≡ err invalid_address)
unfolding from_str Text-discrete ℕ_discrete
addresses = (refl, refl, refl)

abbrev second_host : OverlayAddress
second_host = record { a = 10; b = 100; c = 0; d = 17 }

from_str-display_example : from_str (display second_host) ≡ ok second_host
unfolding new_address
from_str-display_example = from_str-display 17 second_host refl

display-from_str_example :
    (display second_host ≡ bytes "10.100.0.17/32") × (new_address 17 ≡ ok second_host)
unfolding from_str Text-discrete ℕ_discrete
display-from_str_example = display-from_str (bytes "10.100.0.17/32") second_host refl

run-IsValid_example : IsValid (run default enrolments)
run-IsValid_example = run-IsValid enrolments

abbrev policy : VpnPolicy
policy = run default enrolments

enroll_new_example :
    (address : OverlayAddress) × IsLowestFree (hosts policy) address
    × (enroll policy (bytes "user-c") (bytes "peer-c") (bytes "key-3") false ≡ (
      record policy {
        generation = policy.generation + 1;
        peers =
            insert
              (bytes "peer-c")
              (new_peer (bytes "user-c") (bytes "peer-c") (bytes "key-3") address false)
              policy.peers;
      },
      returned (ok (new_peer (bytes "user-c") (bytes "peer-c") (bytes "key-3") address false)),
    ))
unfolding policy_run has_key
enroll_new_example =
    enroll_new policy (bytes "user-c") (bytes "peer-c") (bytes "key-3") false refl refl
      (omega arith) (omega arith)

abbrev moment : Text
moment = bytes "2026-08-01T20:00:00Z"

manifest_of_IsValid_example : manifest policy moment ≡ (
    if valid_utc_timestamp moment
    then ok (record {
      schema_version = 1;
      interface = bytes "wg-users";
      generation = policy.generation;
      generated_at = moment;
      peers = map from_vpn_peer (values policy.peers);
    })
    else err invalid_generated_at)
manifest_of_IsValid_example = manifest_of_IsValid policy moment (run-IsValid enrolments)

abbrev one_peer : List VpnPeer
one_peer = new_peer (bytes "user-a") (bytes "peer-a") (bytes "key-2") second_host true ∷ []

abbrev one_peer_manifest : PeerManifest
one_peer_manifest = record {
  schema_version = 1;
  interface = bytes "wg-users";
  generation = 4;
  generated_at = moment;
  peers =
      record {
        peer_id = bytes "peer-a";
        public_key = bytes "key-2";
        address = second_host;
        health_policy = on_demand;
        permissions = egress ∷ Permission.games ∷ [];
      }
      ∷ [];
}

new_manifest-IsManifest_example : IsManifest 4 moment one_peer one_peer_manifest
unfolding new_manifest valid_utc_timestamp ℕ_discrete
new_manifest-IsManifest_example = new_manifest-IsManifest 4 moment one_peer one_peer_manifest refl

run-refines_example :
    Simulates
      (run default enrolments)
      (enrolls (bytes "user-c") (bytes "peer-c") (bytes "key-3") false)
      (step
        (run default enrolments)
        (enrolls (bytes "user-c") (bytes "peer-c") (bytes "key-3") false))
run-refines_example =
    run-refines enrolments (enrolls (bytes "user-c") (bytes "peer-c") (bytes "key-3") false)
