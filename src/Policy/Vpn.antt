-- ===== src/Policy/Vpn.antt =====
-- `VpnPolicy` of policy/src/vpn.rs. A method takes the policy and returns the policy as it leaves it,
-- with its result. `generation exhausted` is a panic; the policy is then as the method left it.
pub mod Pool
pub mod Invariant
pub mod History
pub mod Enrolment
pub mod Desired
pub mod Registry
use rs_console.Common.{
  ℕ, zero, suc, ◌+◌, ◌-◌, ◌^◌, Bool, true, false, not, ◌&&◌, ◌||◌, Option, none, some, List, [],
  ◌∷◌, map, ltb, if◌then◌else◌, Text, ◌==◌, nat_eq, text_eq, bool_eq, any, find, Result, ok, err,
}
use rs_console.Common.Map.{Map, get, contains_key, insert, remove, values}
use rs_console.Policy.Ids.{
  PolicyError, UserId, PeerId, WireGuardPublicKey, invalid_generation, duplicate_peer_identity,
  peer_already_exists, peer_not_found, address_pool_exhausted,
}
use rs_console.Policy.Address.{OverlayAddress, new_address, host}
use rs_console.Policy.Manifest.{
  Generation, VpnPeer, PeerManifest, address_eq, contains, new_manifest, on_demand, games,
}

pub data Outcome {ℓ} (A : Type ℓ) : Type ℓ where
  returned : Result PolicyError A → Outcome A
  panicked : Outcome A

abbrev pub u64_max : ℕ
u64_max = 2 ^ 64 - 1

-- `Generation::new`.
unfoldable pub new_generation : ℕ → Result PolicyError Generation
new_generation value = if value == 0 then err invalid_generation else ok value

-- `Generation::next`; `none` is the panic of `expect`.
unfoldable pub next : Generation → Option Generation
next generation = if ltb generation u64_max then some (generation + 1) else none

pub record VpnPolicy : Type 0 where
  pub generation : Generation
  pub peers : Map VpnPeer

-- `Default for VpnPolicy`.
abbrev pub default : VpnPolicy
default = record { generation = 1; peers = [] }

-- The end of every change: the generation advances.
unfoldable pub advance {ℓ} : {A : Type ℓ} → VpnPolicy → A → VpnPolicy × Outcome A
unfolding next
advance policy result = elim (next policy.generation) [
  | none ↦ (policy, panicked)
  | some generation ↦ (record policy { generation = generation }, returned (ok result))
]

-- The hosts 2 to 254.
abbrev pub count_from : ℕ → ℕ → List ℕ
count_from zero start = []
count_from (suc n) start = start ∷ count_from n (suc start)

abbrev pub used_hosts : List VpnPeer → List ℕ
used_hosts peers = map (λ p. host p.address) peers

-- `VpnPolicy::allocate_address`.
unfoldable pub allocate_address : VpnPolicy → Result PolicyError OverlayAddress
unfolding new_address
allocate_address policy =
    elim (find (λ h. not (contains h (used_hosts (values policy.peers)))) (count_from 253 2)) [
      | none ↦ err address_pool_exhausted
      | some h ↦ new_address h
    ]

unfoldable pub has_key : WireGuardPublicKey → List VpnPeer → Bool
has_key key peers = any (λ p. p.public_key == key) peers

abbrev pub new_peer : UserId → PeerId → WireGuardPublicKey → OverlayAddress → Bool → VpnPeer
new_peer user_id peer_id public_key address with_games = record {
  user_id = user_id;
  peer_id = peer_id;
  public_key = public_key;
  address = address;
  health_policy = on_demand;
  games = with_games;
}

-- `VpnPolicy::enroll`.
unfoldable pub enroll :
    VpnPolicy → UserId → PeerId → WireGuardPublicKey → Bool → VpnPolicy × Outcome VpnPeer
unfolding has_key advance
enroll policy user_id peer_id public_key with_games =
    if contains_key peer_id policy.peers || has_key public_key (values policy.peers)
    then (policy, returned (err peer_already_exists))
    else elim (allocate_address policy) [
      | err e ↦ (policy, returned (err e))
      | ok address ↦
          let peer = new_peer user_id peer_id public_key address with_games in
          advance (record policy { peers = insert peer_id peer policy.peers }) peer
    ]

-- `VpnPolicy::set_games`.
unfoldable pub set_games : VpnPolicy → PeerId → Bool → VpnPolicy × Outcome Bool
unfolding advance
set_games policy peer_id enabled = elim (get peer_id policy.peers) [
  | none ↦ (policy, returned (err peer_not_found))
  | some peer ↦
      if peer.games == enabled
      then (policy, returned (ok false))
      else advance
          (record policy { peers = insert peer_id (record peer { games = enabled }) policy.peers })
          true
]

-- Whether another peer than `peer_id` holds the key.
unfoldable pub has_key_elsewhere : PeerId → WireGuardPublicKey → Map VpnPeer → Bool
has_key_elsewhere peer_id key peers = any (λ e. not (e.0 == peer_id) && e.1.public_key == key) peers

-- `VpnPolicy::rotate_key`.
unfoldable pub rotate_key : VpnPolicy → PeerId → WireGuardPublicKey → VpnPolicy × Outcome Bool
unfolding has_key_elsewhere advance
rotate_key policy peer_id public_key =
    if has_key_elsewhere peer_id public_key policy.peers
    then (policy, returned (err duplicate_peer_identity))
    else elim (get peer_id policy.peers) [
      | none ↦ (policy, returned (err peer_not_found))
      | some peer ↦
          if peer.public_key == public_key
          then (policy, returned (ok false))
          else advance
              (record policy {
                peers = insert peer_id (record peer { public_key = public_key }) policy.peers;
              })
              true
    ]

-- `VpnPolicy::revoke`.
unfoldable pub revoke : VpnPolicy → PeerId → VpnPolicy × Outcome VpnPeer
unfolding advance
revoke policy peer_id = elim (get peer_id policy.peers) [
  | none ↦ (policy, returned (err peer_not_found))
  | some peer ↦ advance (record policy { peers = remove peer_id policy.peers }) peer
]

-- `VpnPolicy::manifest`.
unfoldable pub manifest : VpnPolicy → Text → Result PolicyError PeerManifest
manifest policy generated_at = new_manifest policy.generation generated_at (values policy.peers)
