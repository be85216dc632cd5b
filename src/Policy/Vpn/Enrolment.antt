-- ===== src/Policy/Vpn/Enrolment.antt =====
-- When `enroll` succeeds, what it stores, and when the pool is full; what the other methods store.
use rs_console.Common.{
  ℕ, ◌+◌, ◌≤◌, ◌<◌, ◌≡◌, ◌≢◌, ◌↔◌, inl, inr, Bool, false, none, List, [], ◌∷◌, arith, nat_eq,
  text_eq, bool_eq, length, All, ok, err,
}
use rs_console.Common.Map.{Map, get, contains_key, insert, values}
use rs_console.Common.Map.Entries.{Entries, Differs, Distinct}
use rs_console.Policy.Ids.{UserId, PeerId, WireGuardPublicKey, address_pool_exhausted}
use rs_console.Policy.Address.{OverlayAddress, host}
use rs_console.Policy.Manifest.{VpnPeer, address_eq, contains}
use rs_console.Policy.Vpn.{u64_max, VpnPolicy, used_hosts, has_key, new_peer, enroll, returned}
use rs_console.Policy.Vpn.Pool.{hosts, IsLowestFree, allocate_cases, Unrepeated, length-hosts-le}
use rs_console.Policy.Vpn.Invariant.{IsEntry, IsValid}

All-hosts :
    (h : ℕ) (m : Map VpnPeer)
    → Differs (λ p. host p.address) h m
    → All (λ y. y ≢ h) (used_hosts (values m))
All-hosts h [] d = tt
All-hosts h ((k, p) ∷ m) d = (d.0, All-hosts h m d.1)

pub Unrepeated-hosts :
    (m : Map VpnPeer) → Distinct (λ p. host p.address) m → Unrepeated (used_hosts (values m))
Unrepeated-hosts [] d = tt
Unrepeated-hosts ((k, p) ∷ m) d = (All-hosts (host p.address) m d.0, Unrepeated-hosts m d.1)

pub hosts_in_pool :
    (m : Map VpnPeer) → Entries IsEntry m → All (λ h. (2 ≤ h) × (h ≤ 254)) (used_hosts (values m))
hosts_in_pool [] e = tt
hosts_in_pool ((k, p) ∷ m) e = ((e.0.1, e.0.2), hosts_in_pool m e.1)

-- A valid policy has at most 253 peers.
pub length-hosts : (policy : VpnPolicy) → IsValid policy → length (hosts policy) ≤ 253
length-hosts policy v =
    length-hosts-le (hosts policy) (Unrepeated-hosts policy.peers v.addresses)
      (hosts_in_pool policy.peers v.entries)

contains-All : (h : ℕ) (xs : List ℕ) → contains h xs ≡ false → All (λ y. y ≢ h) xs
contains-All h [] e = tt
contains-All h (x ∷ xs) e = ground (arith, contains-All h xs)

-- With 253 peers no host is free.
lowest_free-length :
    (policy : VpnPolicy) (address : OverlayAddress)
    → IsValid policy
    → IsLowestFree (hosts policy) address
    → length (hosts policy) < 253
lowest_free-length policy address v (low, high, made, free, below) =
    length-hosts-le (address.d ∷ hosts policy)
      (contains-All address.d (hosts policy) free, Unrepeated-hosts policy.peers v.addresses)
      ((low, high), hosts_in_pool policy.peers v.entries)

-- On a policy with fewer than 253 peers and generations left, enrolling a peer whose id and
-- key are new stores the peer with the lowest free address and advances the generation.
pub enroll_new :
    (policy : VpnPolicy) (user_id : UserId) (peer_id : PeerId) (key : WireGuardPublicKey)
    (with_games : Bool)
    → get peer_id policy.peers ≡ none
    → has_key key (values policy.peers) ≡ false
    → length (hosts policy) < 253
    → policy.generation < u64_max
    → (address : OverlayAddress) × IsLowestFree (hosts policy) address
      × (let peer = new_peer user_id peer_id key address with_games in
          enroll policy user_id peer_id key with_games ≡ (
            record policy {
              generation = policy.generation + 1;
              peers = insert peer_id peer policy.peers;
            },
            returned (ok peer),
          ))
unfolding enroll contains_key
enroll_new policy user_id peer_id key with_games absent fresh room more =
    elim (allocate_cases policy) [
      | inl (address, e, lowest) ↦ (address, lowest, ground arith)
      | inr (e, full) ↦ absurd (omega arith)
    ]

-- On a valid policy a peer whose id and key are new is refused for want of an address exactly when
-- there are 253 peers, and the policy is then unchanged.
pub enroll_exhausted_iff :
    (policy : VpnPolicy) (user_id : UserId) (peer_id : PeerId) (key : WireGuardPublicKey)
    (with_games : Bool)
    → IsValid policy
    → get peer_id policy.peers ≡ none
    → has_key key (values policy.peers) ≡ false
    → (enroll policy user_id peer_id key with_games
        ≡ (policy, returned (err address_pool_exhausted)))
      ↔ (length (hosts policy) ≡ 253)
unfolding enroll contains_key
enroll_exhausted_iff policy user_id peer_id key with_games v absent fresh =
    elim (allocate_cases policy) [
      | inl (address, e, lowest) ↦
          let room = lowest_free-length policy address v lowest in ground arith
      | inr (e, full) ↦ let most = length-hosts policy v in ground arith
    ]
