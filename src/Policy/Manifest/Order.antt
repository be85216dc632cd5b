-- ===== src/Policy/Manifest/Order.antt =====
-- The peers of a manifest: the sort by id, and what `PeerManifest::new` accepts.
use mathlib.Core.List.{Perm}
use mathlib.Core.List.Perm
use rs_console.Common.{
  suc, ◌≤◌, ◌≡◌, refl, ap, inl, inr, true, false, List, [], ◌∷◌, map, arith, Text, bytes,
  Bool-cases, length, ok,
}
use rs_console.Common.Order.{text_ltb, text_ltb_trans, text_ltb_total, text_ltb_asymm}
use rs_console.Policy.Ids.{PeerId}
use rs_console.Policy.Timestamp.{valid_utc_timestamp}
use rs_console.Policy.Manifest.{
  Generation, VpnPeer, GatewayPeer, from_vpn_peer, PeerManifest, insert_by_id, sort_by_id,
  no_repeats, new_manifest,
}
use rs_console.Policy.Manifest.Unique.{AllUnique, no_repeats_iff}

insert_by_id-perm : (p : GatewayPeer) (ps : List GatewayPeer) → Perm (insert_by_id p ps) (p ∷ ps)
unfolding insert_by_id
insert_by_id-perm p [] = Perm.refl (p ∷ [])
insert_by_id-perm p (q ∷ qs) = elim (Bool-cases (text_ltb q.peer_id p.peer_id)) [
  | inl below ↦ rw below (Perm.trans (Perm.cons q (insert_by_id-perm p qs)) (Perm.swap p q qs))
  | inr above ↦ rw above (Perm.refl (p ∷ q ∷ qs))
]

pub sort_by_id-perm : (ps : List GatewayPeer) → Perm (sort_by_id ps) ps
unfolding sort_by_id
sort_by_id-perm [] = Perm.nil
sort_by_id-perm (p ∷ ps) =
    Perm.trans (insert_by_id-perm p (sort_by_id ps)) (Perm.cons p (sort_by_id-perm ps))

-- No later peer has a smaller id.
abbrev pub NotBelow : PeerId → List GatewayPeer → Type 0
NotBelow id [] = Unit
NotBelow id (p ∷ ps) = (text_ltb p.peer_id id ≡ false) × NotBelow id ps

abbrev pub InOrder : List GatewayPeer → Type 0
InOrder [] = Unit
InOrder (p ∷ ps) = NotBelow p.peer_id ps × InOrder ps

NotBelow-insert :
    (id : PeerId) (p : GatewayPeer) (ps : List GatewayPeer)
    → text_ltb p.peer_id id ≡ false
    → NotBelow id ps
    → NotBelow id (insert_by_id p ps)
unfolding insert_by_id
NotBelow-insert id p [] h n = (h, tt)
NotBelow-insert id p (q ∷ qs) h n = ground (arith, NotBelow-insert id p qs h n.1)

NotBelow-trans :
    (a b : PeerId) (ps : List GatewayPeer) → text_ltb b a ≡ false → NotBelow b ps → NotBelow a ps
NotBelow-trans a b [] h n = tt
NotBelow-trans a b (p ∷ ps) h n =
    ground
      (arith, NotBelow-trans a b ps h n.1, text_ltb_total p.peer_id b, text_ltb_trans b p.peer_id a)

insert_by_id-InOrder :
    (p : GatewayPeer) (ps : List GatewayPeer) → InOrder ps → InOrder (insert_by_id p ps)
unfolding insert_by_id
insert_by_id-InOrder p [] o = (tt, tt)
insert_by_id-InOrder p (q ∷ qs) o = ground (
  arith,
  insert_by_id-InOrder p qs o.1,
  NotBelow-insert q.peer_id p qs,
  text_ltb_asymm q.peer_id p.peer_id,
  NotBelow-trans p.peer_id q.peer_id qs,
)

pub sort_by_id-InOrder : (ps : List GatewayPeer) → InOrder (sort_by_id ps)
unfolding sort_by_id
sort_by_id-InOrder [] = tt
sort_by_id-InOrder (p ∷ ps) = insert_by_id-InOrder p (sort_by_id ps) (sort_by_id-InOrder ps)

insert_by_id_first :
    (p : GatewayPeer) (ps : List GatewayPeer) → NotBelow p.peer_id ps → insert_by_id p ps ≡ p ∷ ps
unfolding insert_by_id
insert_by_id_first p [] n = refl
insert_by_id_first p (q ∷ qs) n = ground arith

-- A list in order is left as it is.
pub sort_by_id_of_InOrder : (ps : List GatewayPeer) → InOrder ps → sort_by_id ps ≡ ps
unfolding sort_by_id
sort_by_id_of_InOrder [] o = refl
sort_by_id_of_InOrder (p ∷ ps) o = rw (sort_by_id_of_InOrder ps o.1) (insert_by_id_first p ps o.0)

-- What a manifest that was built carries, in terms of the peers it was built from.
pub record IsManifest (generation : Generation) (generated_at : Text) (peers : List VpnPeer)
    (m : PeerManifest) : Type 0 where
  pub version : m.schema_version ≡ 1
  pub named : m.interface ≡ bytes "wg-users"
  pub generation_kept : m.generation ≡ generation
  pub stamp : m.generated_at ≡ generated_at
  pub timely : valid_utc_timestamp generated_at ≡ true
  pub few : length peers ≤ 253
  pub same_peers : Perm m.peers (map from_vpn_peer peers)
  pub in_order : InOrder m.peers
  pub unique : AllUnique m.peers

new_manifest_parts :
    (generation : Generation) (generated_at : Text) (peers : List VpnPeer) (m : PeerManifest)
    → new_manifest generation generated_at peers ≡ ok m
    → (valid_utc_timestamp generated_at ≡ true)
      × (length (map from_vpn_peer peers) ≤ 253)
      × (no_repeats [] [] [] (sort_by_id (map from_vpn_peer peers)) ≡ true)
      × (m ≡ record {
        schema_version = 1;
        interface = bytes "wg-users";
        generation = generation;
        generated_at = generated_at;
        peers = sort_by_id (map from_vpn_peer peers);
      })
unfolding new_manifest
new_manifest_parts generation generated_at peers m e = ground arith

length-map : (peers : List VpnPeer) → length (map from_vpn_peer peers) ≡ length peers
length-map [] = refl
length-map (p ∷ ps) = ap suc (length-map ps)

-- A manifest that `PeerManifest::new` builds has schema version 1, the interface `wg-users`, the
-- given generation and a valid timestamp; its peers are those given, at most 253, in the order of
-- their ids, with ids, keys and addresses pairwise different.
pub new_manifest-IsManifest :
    (generation : Generation) (generated_at : Text) (peers : List VpnPeer) (m : PeerManifest)
    → new_manifest generation generated_at peers ≡ ok m
    → IsManifest generation generated_at peers m
new_manifest-IsManifest generation generated_at peers m e =
    let (timely, few, unrepeated, same) = new_manifest_parts generation generated_at peers m e in
    let ps = map from_vpn_peer peers in
    rw same (record {
      version = refl;
      named = refl;
      generation_kept = refl;
      stamp = refl;
      timely = timely;
      few = omega (arith, length-map peers);
      same_peers = sort_by_id-perm ps;
      in_order = sort_by_id-InOrder ps;
      unique = (no_repeats_iff (sort_by_id ps)).0 unrepeated;
    })
