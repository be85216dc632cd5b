-- ===== src/Policy/Vpn/Registry.antt =====
-- What `VpnPolicy` of policy/src/vpn.rs promises, without its order of peers: a generation, and the
-- peer of each id.
pub mod Views
pub mod Methods
pub mod Refines
use rs_console.Common.{
  ℕ, ◌+◌, ◌≤◌, ◌<◌, ◌≡◌, ◌≢◌, Bool, Option, none, some, if◌then◌else◌, ◌==◌, nat_eq, text_eq,
  bool_eq,
}
use rs_console.Policy.Vpn.History.{Change, enrolls, sets_games, rotates_key, revokes}
use rs_console.Policy.Address.{OverlayAddress, host}
use rs_console.Policy.Ids.{UserId, PeerId, WireGuardPublicKey}
use rs_console.Policy.Manifest.{VpnPeer, address_eq, games}
use rs_console.Policy.Vpn.{new_peer}

pub record Registry : Type 0 where
  pub generation : ℕ
  pub peer : PeerId → Option VpnPeer

-- A peer that is there.
abbrev pub Holds : Registry → PeerId → VpnPeer → Type 0
Holds r id p = r.peer id ≡ some p

-- The registry with one peer set or taken away.
abbrev pub Sets : Registry → PeerId → Option VpnPeer → Registry → Type 0
Sets r id p r' =
    (r'.generation ≡ r.generation + 1)
    × ((j : PeerId) → r'.peer j ≡ (if id == j then p else r.peer j))

-- No peer holds a key, or none but one.
abbrev pub IsFreshKey : Registry → WireGuardPublicKey → Type 0
IsFreshKey r key = (id : PeerId) (p : VpnPeer) → Holds r id p → p.public_key ≢ key

abbrev pub IsFreshKeyBut : Registry → PeerId → WireGuardPublicKey → Type 0
IsFreshKeyBut r own key = (id : PeerId) (p : VpnPeer) → Holds r id p → id ≢ own → p.public_key ≢ key

-- The lowest host of the pool that no peer has.
abbrev pub IsLowestHost : Registry → OverlayAddress → Type 0
IsLowestHost r address =
    (2 ≤ address.d)
    × (address.d ≤ 254)
    × ((id : PeerId) (p : VpnPeer) → Holds r id p → host p.address ≢ address.d)
    × ((h : ℕ)
        → 2 ≤ h
        → h < address.d
        → (id : PeerId) × (p : VpnPeer) × Holds r id p × (host p.address ≡ h))

-- Every host of the pool is a peer's.
abbrev pub IsFull : Registry → Type 0
IsFull r =
    (h : ℕ) → 2 ≤ h → h ≤ 254 → (id : PeerId) × (p : VpnPeer) × Holds r id p × (host p.address ≡ h)

-- The changes that succeed.
pub data Step (r : Registry) : Change → Registry → Type 0 where
  enrolled :
      (user_id : UserId) (peer_id : PeerId) (key : WireGuardPublicKey) (with_games : Bool)
      (address : OverlayAddress) (r' : Registry)
      → r.peer peer_id ≡ none
      → IsFreshKey r key
      → IsLowestHost r address
      → Sets r peer_id (some (new_peer user_id peer_id key address with_games)) r'
      → Step r (enrolls user_id peer_id key with_games) r'
  games_set :
      (peer_id : PeerId) (enabled : Bool) (p : VpnPeer) (r' : Registry)
      → Holds r peer_id p
      → p.games ≢ enabled
      → Sets r peer_id (some (record p { games = enabled })) r'
      → Step r (sets_games peer_id enabled) r'
  games_same :
      (peer_id : PeerId) (enabled : Bool) (p : VpnPeer)
      → Holds r peer_id p
      → p.games ≡ enabled
      → Step r (sets_games peer_id enabled) r
  key_rotated :
      (peer_id : PeerId) (key : WireGuardPublicKey) (p : VpnPeer) (r' : Registry)
      → Holds r peer_id p
      → IsFreshKeyBut r peer_id key
      → p.public_key ≢ key
      → Sets r peer_id (some (record p { public_key = key })) r'
      → Step r (rotates_key peer_id key) r'
  key_same :
      (peer_id : PeerId) (key : WireGuardPublicKey) (p : VpnPeer)
      → Holds r peer_id p
      → p.public_key ≡ key
      → Step r (rotates_key peer_id key) r
  revoked :
      (peer_id : PeerId) (p : VpnPeer) (r' : Registry)
      → Holds r peer_id p
      → Sets r peer_id none r'
      → Step r (revokes peer_id) r'

-- Why a change is refused.
pub data Refused (r : Registry) : Change → Type 0 where
  id_taken :
      (user_id : UserId) (peer_id : PeerId) (key : WireGuardPublicKey) (with_games : Bool)
      (p : VpnPeer)
      → Holds r peer_id p
      → Refused r (enrolls user_id peer_id key with_games)
  key_taken :
      (user_id : UserId) (peer_id : PeerId) (key : WireGuardPublicKey) (with_games : Bool)
      (id : PeerId) (p : VpnPeer)
      → Holds r id p
      → p.public_key ≡ key
      → Refused r (enrolls user_id peer_id key with_games)
  full :
      (user_id : UserId) (peer_id : PeerId) (key : WireGuardPublicKey) (with_games : Bool)
      → IsFull r
      → Refused r (enrolls user_id peer_id key with_games)
  no_games :
      (peer_id : PeerId) (enabled : Bool)
      → r.peer peer_id ≡ none
      → Refused r (sets_games peer_id enabled)
  key_elsewhere :
      (peer_id : PeerId) (key : WireGuardPublicKey) (id : PeerId) (p : VpnPeer)
      → Holds r id p
      → id ≢ peer_id
      → p.public_key ≡ key
      → Refused r (rotates_key peer_id key)
  no_key :
      (peer_id : PeerId) (key : WireGuardPublicKey)
      → r.peer peer_id ≡ none
      → Refused r (rotates_key peer_id key)
  no_peer : (peer_id : PeerId) → r.peer peer_id ≡ none → Refused r (revokes peer_id)
