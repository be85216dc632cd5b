-- ===== src/Policy/Vpn/Registry/Methods.antt =====
-- `set_games`, `revoke` and `rotate_key` of policy/src/vpn.rs against the registry.
use rs_console.Common.{
  refl, inl, inr, Bool, true, not, ◌&&◌, arith, Text, ◌==◌, nat_eq, text_eq, ==_iff, bool_eq,
  Bool-cases, Option-cases, any,
}
use rs_console.Common.Map.{get, insert, remove, get-remove}
use rs_console.Common.Map.Search.{any-get, none-get}
use rs_console.Policy.Vpn.History.{step, sets_games, rotates_key, revokes, done, failed}
use rs_console.Policy.Vpn.Registry.{
  games_set, games_same, key_rotated, key_same, revoked, no_games, key_elsewhere, no_key, no_peer,
}
use rs_console.Policy.Manifest.{VpnPeer, address_eq}
use rs_console.Policy.Vpn.{VpnPolicy, advance, set_games, has_key_elsewhere, rotate_key, revoke}
use rs_console.Policy.Ids.{PeerId, WireGuardPublicKey}
use rs_console.Policy.Vpn.Invariant.{IsValid}
use rs_console.Policy.Vpn.Registry.Views.{
  Simulates, advance-Simulates, insert-Sets, simulated, ended,
}

pub set_games-Simulates :
    (policy : VpnPolicy) (peer_id : PeerId) (enabled : Bool)
    → Simulates policy (sets_games peer_id enabled) (step policy (sets_games peer_id enabled))
unfolding step set_games
set_games-Simulates policy peer_id enabled = elim (Option-cases (get peer_id policy.peers)) [
  | inl e ↦ simulated policy _ (policy, failed) (ground arith) (no_games peer_id enabled e, refl)
  | inr (p, e) ↦ elim (Bool-cases (p.games == enabled)) [
    | inl same ↦
        simulated policy _ (policy, done) (ground arith)
          (games_same peer_id enabled p e ((==_iff p.games enabled).0 same))
    | inr other ↦
        let after : VpnPolicy = record policy {
          peers = insert peer_id (record p { games = enabled }) policy.peers;
        } in
        simulated policy _ (ended (advance after true)) (ground arith) (
          advance-Simulates policy after (sets_games peer_id enabled) true refl (λ more.
            games_set peer_id enabled p _ e (ground arith)
              (insert-Sets policy peer_id (record p { games = enabled }))))
  ]
]

pub revoke-Simulates :
    (policy : VpnPolicy) (peer_id : PeerId)
    → IsValid policy
    → Simulates policy (revokes peer_id) (step policy (revokes peer_id))
unfolding step revoke
revoke-Simulates policy peer_id v = elim (Option-cases (get peer_id policy.peers)) [
  | inl e ↦ simulated policy _ (policy, failed) (ground arith) (no_peer peer_id e, refl)
  | inr (p, e) ↦
      let after : VpnPolicy = record policy { peers = remove peer_id policy.peers } in
      simulated policy _ (ended (advance after p)) (ground arith) (
        advance-Simulates policy after (revokes peer_id) p refl
          (λ more. revoked peer_id p _ e (refl, λ j. get-remove peer_id j policy.peers v.sorted)))
]

pub rotate_key-Simulates :
    (policy : VpnPolicy) (peer_id : PeerId) (key : WireGuardPublicKey)
    → IsValid policy
    → Simulates policy (rotates_key peer_id key) (step policy (rotates_key peer_id key))
unfolding step rotate_key has_key_elsewhere
rotate_key-Simulates policy peer_id key v =
    let another : Text → VpnPeer → Bool = λ k p. not (k == peer_id) && p.public_key == key in
    elim (Bool-cases (any (λ e. another e.0 e.1) policy.peers)) [
      | inl taken ↦
          let (id, p, found, holds) = any-get another policy.peers v.sorted taken in
          simulated policy _ (policy, failed) (ground arith)
            (key_elsewhere peer_id key id p found (ground arith) (ground arith), refl)
      | inr free ↦ elim (Option-cases (get peer_id policy.peers)) [
        | inl e ↦ simulated policy _ (policy, failed) (ground arith) (no_key peer_id key e, refl)
        | inr (p, e) ↦ elim (Bool-cases (p.public_key == key)) [
          | inl same ↦
              simulated policy _ (policy, done) (ground arith)
                (key_same peer_id key p e ((==_iff p.public_key key).0 same))
          | inr other ↦
              let after : VpnPolicy = record policy {
                peers = insert peer_id (record p { public_key = key }) policy.peers;
              } in
              simulated policy _ (ended (advance after true)) (ground arith) (
                advance-Simulates policy after (rotates_key peer_id key) true refl (λ more.
                  key_rotated peer_id key p _ e
                    (λ id q found apart same.
                      let none_other = none-get another policy.peers id q free found in
                      ground arith)
                    (ground arith) (insert-Sets policy peer_id (record p { public_key = key }))))
        ]
      ]
    ]
