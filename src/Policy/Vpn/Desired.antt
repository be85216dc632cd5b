-- ===== src/Policy/Vpn/Desired.antt =====
-- The manifest of a policy that its methods have built.
use rs_console.Common.{
  suc, ◌≡◌, refl, sym, ap, List, [], ◌∷◌, map, arith, if◌then◌else◌, Text, bytes, length, ok, err,
}
use rs_console.Common.Map.{Map, values, KeysAbove, IsSorted}
use rs_console.Common.Map.Entries.{Entries, Differs, Distinct}
use rs_console.Common.Order.{ne_of_text_ltb, text_ltb_asymm}
use rs_console.Policy.Ids.{PeerId, WireGuardPublicKey, invalid_generated_at}
use rs_console.Policy.Address.{OverlayAddress, host}
use rs_console.Policy.Timestamp.{valid_utc_timestamp}
use rs_console.Policy.Manifest.{VpnPeer, GatewayPeer, from_vpn_peer, new_manifest}
use rs_console.Policy.Manifest.Unique.{Others, Unique, AllUnique, no_repeats_iff}
use rs_console.Policy.Manifest.Order.{NotBelow, InOrder, sort_by_id_of_InOrder}
use rs_console.Policy.Vpn.{VpnPolicy, used_hosts, manifest}
use rs_console.Policy.Vpn.Invariant.{IsEntry, IsValid}
use rs_console.Policy.Vpn.Enrolment.{length-hosts}

abbrev listed : Map VpnPeer → List GatewayPeer
listed m = map from_vpn_peer (values m)

NotBelow-listed :
    (k : PeerId) (m : Map VpnPeer) → KeysAbove k m → Entries IsEntry m → NotBelow k (listed m)
unfolding from_vpn_peer
NotBelow-listed k [] a e = tt
NotBelow-listed k ((j, p) ∷ m) a e =
    (rw (← e.0.0) (text_ltb_asymm k j a.0), NotBelow-listed k m a.1 e.1)

InOrder-listed : (m : Map VpnPeer) → IsSorted m → Entries IsEntry m → InOrder (listed m)
unfolding from_vpn_peer
InOrder-listed [] s e = tt
InOrder-listed ((k, p) ∷ m) s e =
    (rw (← e.0.0) (NotBelow-listed k m s.0 e.1), InOrder-listed m s.1 e.1)

Others-ids :
    (k : PeerId) (m : Map VpnPeer)
    → KeysAbove k m
    → Entries IsEntry m
    → Others (λ p. p.peer_id) k (listed m)
unfolding from_vpn_peer
Others-ids k [] a e = tt
Others-ids k ((j, p) ∷ m) a e =
    (rw (← e.0.0) (λ same. ne_of_text_ltb k j a.0 (sym same)), Others-ids k m a.1 e.1)

Unique-ids : (m : Map VpnPeer) → IsSorted m → Entries IsEntry m → Unique (λ p. p.peer_id) (listed m)
unfolding from_vpn_peer
Unique-ids [] s e = tt
Unique-ids ((k, p) ∷ m) s e = (rw (← e.0.0) (Others-ids k m s.0 e.1), Unique-ids m s.1 e.1)

Others-keys :
    (key : WireGuardPublicKey) (m : Map VpnPeer)
    → Differs (λ p. p.public_key) key m
    → Others (λ p. p.public_key) key (listed m)
unfolding from_vpn_peer
Others-keys key [] d = tt
Others-keys key ((j, p) ∷ m) d = (d.0, Others-keys key m d.1)

Unique-keys :
    (m : Map VpnPeer) → Distinct (λ p. p.public_key) m → Unique (λ p. p.public_key) (listed m)
unfolding from_vpn_peer
Unique-keys [] d = tt
Unique-keys ((k, p) ∷ m) d = (Others-keys p.public_key m d.0, Unique-keys m d.1)

-- Different hosts are different addresses.
Others-addresses :
    (address : OverlayAddress) (m : Map VpnPeer)
    → Differs (λ p. host p.address) (host address) m
    → Others (λ p. p.address) address (listed m)
unfolding from_vpn_peer
Others-addresses address [] d = tt
Others-addresses address ((j, p) ∷ m) d =
    (λ same. d.0 (ap (λ a. host a) same), Others-addresses address m d.1)

Unique-addresses :
    (m : Map VpnPeer) → Distinct (λ p. host p.address) m → Unique (λ p. p.address) (listed m)
unfolding from_vpn_peer
Unique-addresses [] d = tt
Unique-addresses ((k, p) ∷ m) d = (Others-addresses p.address m d.0, Unique-addresses m d.1)

length-listed : (m : Map VpnPeer) → length (listed m) ≡ length (used_hosts (values m))
length-listed [] = refl
length-listed ((k, p) ∷ m) = ap suc (length-listed m)

-- The manifest of a valid policy fails only for a malformed timestamp: it is never too long and
-- never has a repeated identity. Otherwise it carries the policy's generation and all its peers.
pub manifest_of_IsValid :
    (policy : VpnPolicy) (generated_at : Text)
    → IsValid policy
    → manifest policy generated_at ≡ (
        if valid_utc_timestamp generated_at
        then ok (record {
          schema_version = 1;
          interface = bytes "wg-users";
          generation = policy.generation;
          generated_at = generated_at;
          peers = map from_vpn_peer (values policy.peers);
        })
        else err invalid_generated_at)
unfolding manifest new_manifest
manifest_of_IsValid policy generated_at v =
    let m = policy.peers in
    let unique : AllUnique (listed m) =
      (Unique-ids m v.sorted v.entries, Unique-keys m v.keys, Unique-addresses m v.addresses) in
    rw
      (
        sort_by_id_of_InOrder (listed m) (InOrder-listed m v.sorted v.entries),
        (no_repeats_iff (listed m)).1 unique,
      )
      (ground (arith, length-listed m, length-hosts policy v))
