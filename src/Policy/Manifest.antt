-- ===== src/Policy/Manifest.antt =====
-- `GatewayPeer` and `PeerManifest` of policy/src/contract.rs, with the `VpnPeer` of policy/src/vpn.rs
-- that they are made from.
pub mod Unique
pub mod Order
use rs_console.Common.{
  ℕ, Bool, true, false, not, ◌||◌, List, [], ◌∷◌, map, ℕ_discrete, ltb, if◌then◌else◌, Text, bytes,
  Eq, ◌==◌, nat_eq, text_eq, bool_eq, length, any, Result, ok, err,
}
use rs_console.Common.Order.{text_ltb}
use rs_console.Policy.Ids.{
  PolicyError, UserId, PeerId, WireGuardPublicKey, invalid_generated_at, too_many_peers,
  duplicate_peer_identity,
}
use rs_console.Policy.Address.{OverlayAddress}
use rs_console.Policy.Timestamp.{valid_utc_timestamp}

pub data HealthPolicy : Type 0 where
  required on_demand : HealthPolicy

pub data Permission : Type 0 where
  egress games : Permission

abbrev pub Generation : Type 0
Generation = ℕ

pub record VpnPeer : Type 0 where
  pub user_id : UserId
  pub peer_id : PeerId
  pub public_key : WireGuardPublicKey
  pub address : OverlayAddress
  pub health_policy : HealthPolicy
  pub games : Bool

-- `VpnPeer::permissions`.
unfoldable pub permissions : VpnPeer → List Permission
permissions peer = if peer.games then egress ∷ games ∷ [] else egress ∷ []

pub record GatewayPeer : Type 0 where
  pub peer_id : PeerId
  pub public_key : WireGuardPublicKey
  pub address : OverlayAddress
  pub health_policy : HealthPolicy
  pub permissions : List Permission

-- `From<VpnPeer> for GatewayPeer`.
unfoldable pub from_vpn_peer : VpnPeer → GatewayPeer
unfolding permissions
from_vpn_peer peer = record {
  peer_id = peer.peer_id;
  public_key = peer.public_key;
  address = peer.address;
  health_policy = peer.health_policy;
  permissions = permissions peer;
}

pub record PeerManifest : Type 0 where
  pub schema_version : ℕ
  pub interface : Text
  pub generation : Generation
  pub generated_at : Text
  pub peers : List GatewayPeer

abbrev pub schema_version : ℕ
schema_version = 1

abbrev pub wg_users : Text
wg_users = bytes "wg-users"

abbrev pub wg_nodes : Text
wg_nodes = bytes "wg-nodes"

-- The stable sort by peer id.
unfoldable pub insert_by_id : GatewayPeer → List GatewayPeer → List GatewayPeer
insert_by_id p [] = p ∷ []
insert_by_id p (q ∷ qs) = if text_ltb q.peer_id p.peer_id then q ∷ insert_by_id p qs else p ∷ q ∷ qs

unfoldable pub sort_by_id : List GatewayPeer → List GatewayPeer
unfolding insert_by_id
sort_by_id [] = []
sort_by_id (p ∷ ps) = insert_by_id p (sort_by_id ps)

unfoldable pub Ipv4Addr-discrete : Discrete OverlayAddress
unfolding ℕ_discrete
Ipv4Addr-discrete = hlevel ℕ_discrete

instance abbrev pub address_eq : Eq OverlayAddress
address_eq = record { dec = Ipv4Addr-discrete }

module _ {ℓ} {A : Type ℓ} ⦃e : Eq A⦄ where
  abbrev pub contains : A → List A → Bool
  contains a xs = any (λ x. x == a) xs

-- The loop that inserts into three hash sets and stops at the first value seen before.
unfoldable pub no_repeats :
    List PeerId → List WireGuardPublicKey → List OverlayAddress → List GatewayPeer → Bool
no_repeats ids keys addresses [] = true
no_repeats ids keys addresses (p ∷ ps) =
    if contains p.peer_id ids || contains p.public_key keys || contains p.address addresses
    then false
    else no_repeats (p.peer_id ∷ ids) (p.public_key ∷ keys) (p.address ∷ addresses) ps

-- `PeerManifest::new`.
unfoldable pub new_manifest : Generation → Text → List VpnPeer → Result PolicyError PeerManifest
unfolding sort_by_id no_repeats from_vpn_peer
new_manifest generation generated_at peers =
    let peers = map from_vpn_peer peers in
    let sorted = sort_by_id peers in
    if not (valid_utc_timestamp generated_at)
    then err invalid_generated_at
    else if ltb 253 (length peers)
    then err too_many_peers
    else if not (no_repeats [] [] [] sorted)
    then err duplicate_peer_identity
    else ok (record {
      schema_version = schema_version;
      interface = wg_users;
      generation = generation;
      generated_at = generated_at;
      peers = sorted;
    })
