-- ===== src/Policy/Vpn/Invariant.antt =====
-- The invariant of `VpnPolicy`: what every history of its methods keeps.
use rs_console.Common.{
  ℕ, ◌≤◌, ◌≡◌, refl, inl, inr, Bool, false, ◌||◌, [], ◌∷◌, arith, ◌==◌, nat_eq, text_eq, bool_eq,
  Bool-cases, Option-cases, ok,
}
use rs_console.Common.Map.{
  Map, get, contains_key, insert, remove, values, IsSorted, insert-IsSorted, remove-IsSorted,
}
use rs_console.Policy.Ids.{UserId, PeerId, WireGuardPublicKey}
use rs_console.Policy.Vpn.{
  u64_max, VpnPolicy, default, advance, used_hosts, has_key, new_peer, enroll, set_games,
  has_key_elsewhere, rotate_key, revoke,
}
use rs_console.Common.Map.Entries.{
  Entries, insert-Entries, remove-Entries, get-Entries, Elsewhere, Differs, Distinct,
  Differs-Elsewhere, insert-Distinct, remove-Distinct, get-Elsewhere,
}
use rs_console.Policy.Manifest.{VpnPeer, address_eq, contains}
use rs_console.Policy.Address.{OverlayAddress, new_address, host}
use rs_console.Policy.Vpn.Pool.{hosts, IsLowestFree, allocate_cases}

-- The entry stands under its peer's id, and its address is one that `OverlayAddress::new` makes.
abbrev pub IsEntry : PeerId → VpnPeer → Type 0
IsEntry id peer =
    (id ≡ peer.peer_id)
    × (2 ≤ host peer.address)
    × (host peer.address ≤ 254)
    × (new_address (host peer.address) ≡ ok peer.address)

pub record IsValid (policy : VpnPolicy) : Type 0 where
  pub sorted : IsSorted policy.peers
  pub entries : Entries IsEntry policy.peers
  pub keys : Distinct (λ p. p.public_key) policy.peers
  pub addresses : Distinct (λ p. host p.address) policy.peers
  pub positive : 1 ≤ policy.generation
  pub bounded : policy.generation ≤ u64_max

pub default-IsValid : IsValid default
default-IsValid = record {
  sorted = tt;
  entries = tt;
  keys = tt;
  addresses = tt;
  positive = omega arith;
  bounded = omega arith;
}

-- The entries of a map stand for a valid policy at any generation.
pub record IsValidMap (m : Map VpnPeer) : Type 0 where
  pub sorted : IsSorted m
  pub entries : Entries IsEntry m
  pub keys : Distinct (λ p. p.public_key) m
  pub addresses : Distinct (λ p. host p.address) m

advance-IsValid :
    {A : Type 0} (policy : VpnPolicy) (result : A)
    → IsValidMap policy.peers
    → 1 ≤ policy.generation
    → policy.generation ≤ u64_max
    → IsValid (advance policy result).0
unfolding advance
advance-IsValid policy result m p b = ground arith

has_key-Differs :
    (key : WireGuardPublicKey) (m : Map VpnPeer)
    → has_key key (values m) ≡ false
    → Differs (λ p. p.public_key) key m
unfolding has_key
has_key-Differs key [] h = tt
has_key-Differs key ((k, p) ∷ m) h = ground (arith, has_key-Differs key m)

contains-Differs :
    (h : ℕ) (m : Map VpnPeer)
    → contains h (used_hosts (values m)) ≡ false
    → Differs (λ p. host p.address) h m
contains-Differs h [] e = tt
contains-Differs h ((k, p) ∷ m) e = ground (arith, contains-Differs h m)

has_key-Elsewhere :
    (id : PeerId) (key : WireGuardPublicKey) (m : Map VpnPeer)
    → has_key_elsewhere id key m ≡ false
    → Elsewhere (λ p. p.public_key) id key m
unfolding has_key_elsewhere
has_key-Elsewhere id key [] h = tt
has_key-Elsewhere id key ((k, p) ∷ m) h = ground (arith, has_key-Elsewhere id key m)

-- A map stays valid when a proper entry is put in whose key and host are not elsewhere.
insert-IsValidMap :
    (id : PeerId) (peer : VpnPeer) (m : Map VpnPeer)
    → IsValidMap m
    → IsEntry id peer
    → Elsewhere (λ p. p.public_key) id peer.public_key m
    → Elsewhere (λ p. host p.address) id (host peer.address) m
    → IsValidMap (insert id peer m)
insert-IsValidMap id peer m v e k h = record {
  sorted = insert-IsSorted id peer m v.sorted;
  entries = insert-Entries IsEntry id peer m e v.entries;
  keys = insert-Distinct _ id peer m v.sorted k v.keys;
  addresses = insert-Distinct _ id peer m v.sorted h v.addresses;
}

remove-IsValidMap : (id : PeerId) (m : Map VpnPeer) → IsValidMap m → IsValidMap (remove id m)
remove-IsValidMap id m v = record {
  sorted = remove-IsSorted id m v.sorted;
  entries = remove-Entries IsEntry id m v.entries;
  keys = remove-Distinct _ id m v.keys;
  addresses = remove-Distinct _ id m v.addresses;
}

entries_valid : {policy : VpnPolicy} → IsValid policy → IsValidMap policy.peers
entries_valid v = record {
  sorted = v.sorted;
  entries = v.entries;
  keys = v.keys;
  addresses = v.addresses;
}

enrolled-IsValidMap :
    (policy : VpnPolicy) (user_id : UserId) (peer_id : PeerId) (key : WireGuardPublicKey)
    (address : OverlayAddress) (with_games : Bool)
    → IsValid policy
    → has_key key (values policy.peers) ≡ false
    → IsLowestFree (hosts policy) address
    → IsValidMap (insert peer_id (new_peer user_id peer_id key address with_games) policy.peers)
enrolled-IsValidMap policy user_id peer_id key address with_games v fresh
      (low, high, made, free, _) =
    insert-IsValidMap peer_id _ policy.peers (entries_valid v) (refl, low, high, made)
      (Differs-Elsewhere _ peer_id key policy.peers (has_key-Differs key policy.peers fresh))
      (Differs-Elsewhere _ peer_id (host address) policy.peers
        (contains-Differs (host address) policy.peers free))

pub enroll-IsValid :
    (policy : VpnPolicy) (user_id : UserId) (peer_id : PeerId) (key : WireGuardPublicKey)
    (with_games : Bool)
    → IsValid policy
    → IsValid (enroll policy user_id peer_id key with_games).0
unfolding enroll
enroll-IsValid policy user_id peer_id key with_games v =
    elim (Bool-cases (contains_key peer_id policy.peers || has_key key (values policy.peers))) [
      | inl known ↦ rw known v
      | inr fresh ↦ rw fresh (elim (allocate_cases policy) [
        | inl (address, e, lowest) ↦ rw e (
            advance-IsValid _ _
              (enrolled-IsValidMap policy user_id peer_id key address with_games v (ground arith)
                lowest)
              v.positive v.bounded)
        | inr (e, full) ↦ rw e v
      ])
    ]

pub set_games-IsValid :
    (policy : VpnPolicy) (peer_id : PeerId) (enabled : Bool)
    → IsValid policy
    → IsValid (set_games policy peer_id enabled).0
unfolding set_games
set_games-IsValid policy peer_id enabled v = elim (Option-cases (get peer_id policy.peers)) [
  | inl e ↦ rw (e, set_games) v
  | inr (peer, e) ↦
      rw (e, set_games)
        (elim (Bool-cases (peer.games == enabled)) [
          | inl same ↦ rw same v
          | inr other ↦ rw other (
              advance-IsValid _ _
                (insert-IsValidMap peer_id _ policy.peers (entries_valid v)
                  (get-Entries IsEntry peer_id peer policy.peers v.entries e)
                  (get-Elsewhere _ peer_id peer policy.peers e v.keys)
                  (get-Elsewhere _ peer_id peer policy.peers e v.addresses))
                v.positive v.bounded)
        ])
]

pub rotate_key-IsValid :
    (policy : VpnPolicy) (peer_id : PeerId) (key : WireGuardPublicKey)
    → IsValid policy
    → IsValid (rotate_key policy peer_id key).0
unfolding rotate_key
rotate_key-IsValid policy peer_id key v =
    elim (Bool-cases (has_key_elsewhere peer_id key policy.peers)) [
      | inl held ↦ rw held v
      | inr free ↦ rw free (elim (Option-cases (get peer_id policy.peers)) [
        | inl e ↦ rw e v
        | inr (peer, e) ↦ rw e (elim (Bool-cases (peer.public_key == key)) [
          | inl same ↦ rw same v
          | inr other ↦ rw other (
              advance-IsValid _ _
                (insert-IsValidMap peer_id _ policy.peers (entries_valid v)
                  (get-Entries IsEntry peer_id peer policy.peers v.entries e)
                  (has_key-Elsewhere peer_id key policy.peers free)
                  (get-Elsewhere _ peer_id peer policy.peers e v.addresses))
                v.positive v.bounded)
        ])
      ])
    ]

pub revoke-IsValid :
    (policy : VpnPolicy) (peer_id : PeerId) → IsValid policy → IsValid (revoke policy peer_id).0
unfolding revoke
revoke-IsValid policy peer_id v = elim (Option-cases (get peer_id policy.peers)) [
  | inl e ↦ rw (e, revoke) v
  | inr (peer, e) ↦
      rw (e, revoke)
        (advance-IsValid _ _ (remove-IsValidMap peer_id policy.peers (entries_valid v)) v.positive
          v.bounded)
]
