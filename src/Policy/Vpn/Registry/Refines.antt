-- ===== src/Policy/Vpn/Registry/Refines.antt =====
-- `VpnPolicy` of policy/src/vpn.rs refines the registry.
use rs_console.Common.{
  ℕ, ◌≡◌, refl, sym, ap, ◌∙◌, subst, inl, inr, Bool, not, none, some, List, arith, Text, ◌==◌,
  nat_eq, text_eq, ==_iff, bool_eq, Bool-cases, Option-cases, find, Result, err,
}
use rs_console.Common.Map.{get, contains_key, insert, values}
use rs_console.Common.Map.Search.{any-get, none-get}
use rs_console.Policy.Vpn.History.{
  Change, step, run, run-IsValid, enrolls, sets_games, rotates_key, revokes, failed,
}
use rs_console.Policy.Vpn.Registry.{IsLowestHost, IsFull, enrolled, id_taken, key_taken, full}
use rs_console.Policy.Manifest.{VpnPeer, address_eq, contains}
use rs_console.Policy.Vpn.{
  VpnPolicy, default, advance, count_from, allocate_address, has_key, new_peer, enroll,
}
use rs_console.Policy.Ids.{PolicyError, UserId, PeerId, WireGuardPublicKey, address_pool_exhausted}
use rs_console.Policy.Address.{OverlayAddress, new_address, host}
use rs_console.Policy.Vpn.Invariant.{IsValid}
use rs_console.Policy.Vpn.Pool.{
  Covers, Found, find-Found, hosts, IsLowestFree, new_address_in_pool, allocate_cases,
}
use rs_console.Policy.Vpn.Registry.Views.{
  view, Simulates, advance-Simulates, has_key-any, contains-any, insert-Sets, simulated, ended,
}
use rs_console.Policy.Vpn.Registry.Methods.{
  set_games-Simulates, revoke-Simulates, rotate_key-Simulates,
}

-- When `allocate_address` finds nothing, every host is a peer's.
allocate_address-Covers :
    (policy : VpnPolicy)
    → allocate_address policy ≡ err address_pool_exhausted
    → Covers 253 2 (hosts policy)
unfolding allocate_address
allocate_address-Covers policy e =
    let search = find (λ h. not (contains h (hosts policy))) (count_from 253 2) in
    elim (Option-cases search) [
      | inl none_left ↦
          subst (Found (hosts policy) 253 2) none_left (find-Found (hosts policy) 253 2)
      | inr (h, got) ↦
          let (low, high, free, below) =
            subst (Found (hosts policy) 253 2) got (find-Found (hosts policy) 253 2) in
          let made : allocate_address policy ≡ new_address h =
            ap
              (λ o. elim o as (λ _. Result PolicyError OverlayAddress) [
                | none ↦ err address_pool_exhausted
                | some h ↦ new_address h
              ])
              got in
          let in_pool = new_address_in_pool h low (omega arith) in cc
    ]

allocate_address-IsFull :
    (policy : VpnPolicy)
    → IsValid policy
    → allocate_address policy ≡ err address_pool_exhausted
    → IsFull (view policy)
allocate_address-IsFull policy v e h from to =
    let (id, p, found, there) =
      any-get (λ k p. host p.address == h) policy.peers v.sorted
        (sym (contains-any h policy.peers)
          ∙ allocate_address-Covers policy e h from (omega arith)) in
    (id, p, found, (==_iff (host p.address) h).0 there)

-- What `allocate_address` finds.
allocate_address-IsLowestHost :
    (policy : VpnPolicy) (address : OverlayAddress)
    → IsValid policy
    → IsLowestFree (hosts policy) address
    → IsLowestHost (view policy) address
allocate_address-IsLowestHost policy address v (low, high, made, free, below) =
    let is_at : ℕ → Text → VpnPeer → Bool = λ h k p. host p.address == h in
    (
      low,
      high,
      (λ id p found same.
          let none_there =
            none-get (is_at address.d) policy.peers id p
              (sym (contains-any address.d policy.peers) ∙ free) found in
          ground arith),
      (λ h from to.
          let (id, p, found, there) =
            any-get (is_at h) policy.peers v.sorted
              (sym (contains-any h policy.peers) ∙ below h from to) in
          (id, p, found, (==_iff (host p.address) h).0 there)),
    )

enroll-Simulates :
    (policy : VpnPolicy) (user_id : UserId) (peer_id : PeerId) (key : WireGuardPublicKey)
    (with_games : Bool)
    → IsValid policy
    → Simulates policy
        (enrolls user_id peer_id key with_games)
        (step policy (enrolls user_id peer_id key with_games))
unfolding step enroll contains_key
enroll-Simulates policy user_id peer_id key with_games v =
    let holder : Text → VpnPeer → Bool = λ k p. p.public_key == key in
    elim (Option-cases (get peer_id policy.peers)) [
      | inr (p, e) ↦
          simulated policy _ (policy, failed) (ground arith)
            (id_taken user_id peer_id key with_games p e, refl)
      | inl absent ↦ elim (Bool-cases (has_key key (values policy.peers))) [
        | inl taken ↦
            let (id, p, found, same) =
              any-get holder policy.peers v.sorted (sym (has_key-any key policy.peers) ∙ taken) in
            simulated policy _ (policy, failed) (ground arith)
              (key_taken user_id peer_id key with_games id p found (ground arith), refl)
        | inr fresh ↦ elim (allocate_cases policy) [
          | inr (e, crowded) ↦
              simulated policy _ (policy, failed) (ground arith)
                (full user_id peer_id key with_games (allocate_address-IsFull policy v e), refl)
          | inl (address, e, lowest) ↦
              let peer = new_peer user_id peer_id key address with_games in
              let after : VpnPolicy = record policy { peers = insert peer_id peer policy.peers } in
              simulated policy _ (ended (advance after peer)) (ground arith) (
                advance-Simulates policy after (enrolls user_id peer_id key with_games) peer refl
                  (λ more.
                    enrolled user_id peer_id key with_games address _ absent
                      (λ id q found same.
                        let none_other =
                          none-get holder policy.peers id q
                            (sym (has_key-any key policy.peers) ∙ fresh) found in
                        ground arith)
                      (allocate_address-IsLowestHost policy address v lowest)
                      (insert-Sets policy peer_id peer)))
        ]
      ]
    ]

step-refines :
    (policy : VpnPolicy) (change : Change)
    → IsValid policy
    → Simulates policy change (step policy change)
step-refines policy (enrolls user_id peer_id key with_games) v =
    enroll-Simulates policy user_id peer_id key with_games v
step-refines policy (sets_games peer_id enabled) v = set_games-Simulates policy peer_id enabled
step-refines policy (rotates_key peer_id key) v = rotate_key-Simulates policy peer_id key v
step-refines policy (revokes peer_id) v = revoke-Simulates policy peer_id v

-- After any sequence of calls on a default policy each method does what the registry promises, whatever the order of the peers.
-- Where it succeeds: a peer is enrolled only under a new id with a new key, and gets the lowest host
-- of the pool that is free; the games or the key of a peer that is there are set, unless they are so
-- already, and the key is no other peer's; a peer that is there is revoked; all other peers stay as
-- they were, and the generation goes up by one for each change. Where it returns an error, the
-- policy is as it was, and one of the reasons for a refusal holds. It panics only at the end of the
-- generations.
pub run-refines :
    (calls : List Change) (change : Change)
    → Simulates (run default calls) change (step (run default calls) change)
run-refines calls change = step-refines (run default calls) change (run-IsValid calls)
