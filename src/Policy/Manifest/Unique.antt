-- ===== src/Policy/Manifest/Unique.antt =====
-- The loop over three hash sets in `PeerManifest::new` decides that ids, keys and addresses are
-- pairwise different.
use rs_console.Common.{
  ◌≡◌, refl, ◌≢◌, ◌↔◌, true, false, List, [], ◌∷◌, arith, Eq, nat_eq, text_eq, bool_eq,
}
use rs_console.Policy.Ids.{PeerId, WireGuardPublicKey}
use rs_console.Policy.Address.{OverlayAddress}
use rs_console.Policy.Manifest.{GatewayPeer, address_eq, contains, no_repeats}

module _ {B : Type 0} ⦃e : Eq B⦄ (f : GatewayPeer → B) where
  -- No peer of the list has an attribute among the given ones.
  abbrev NoClash : List B → List GatewayPeer → Type 0
  NoClash xs [] = Unit
  NoClash xs (p ∷ ps) = (contains (f p) xs ≡ false) × NoClash xs ps

  NoClash-nil : (ps : List GatewayPeer) → NoClash [] ps
  NoClash-nil [] = tt
  NoClash-nil (p ∷ ps) = (refl, NoClash-nil ps)

module _ {B : Type 0} (f : GatewayPeer → B) where
  abbrev pub Others : B → List GatewayPeer → Type 0
  Others b [] = Unit
  Others b (p ∷ ps) = (f p ≢ b) × Others b ps

  -- The attribute differs between any two peers of the list.
  abbrev pub Unique : List GatewayPeer → Type 0
  Unique [] = Unit
  Unique (p ∷ ps) = Others (f p) ps × Unique ps

module _ {B : Type 0} ⦃e : Eq B⦄ (f : GatewayPeer → B) where
  NoClash-cons :
      (b : B) (xs : List B) (ps : List GatewayPeer)
      → NoClash f (b ∷ xs) ps
      → Others f b ps × NoClash f xs ps
  NoClash-cons b xs [] h = (tt, tt)
  NoClash-cons b xs (p ∷ ps) h = ground (arith, NoClash-cons b xs ps h.1)

  cons-NoClash :
      (b : B) (xs : List B) (ps : List GatewayPeer)
      → Others f b ps
      → NoClash f xs ps
      → NoClash f (b ∷ xs) ps
  cons-NoClash b xs [] o h = tt
  cons-NoClash b xs (p ∷ ps) o h = ground (arith, cons-NoClash b xs ps o.1 h.1)

abbrev id_of : GatewayPeer → PeerId
id_of p = p.peer_id

abbrev key_of : GatewayPeer → WireGuardPublicKey
key_of p = p.public_key

abbrev address_of : GatewayPeer → OverlayAddress
address_of p = p.address

abbrev pub AllUnique : List GatewayPeer → Type 0
AllUnique ps =
    Unique (λ p. p.peer_id) ps × Unique (λ p. p.public_key) ps × Unique (λ p. p.address) ps

no_repeats_sound :
    (ids : List PeerId) (keys : List WireGuardPublicKey) (addresses : List OverlayAddress)
    (ps : List GatewayPeer)
    → no_repeats ids keys addresses ps ≡ true
    → NoClash id_of ids ps × NoClash key_of keys ps × NoClash address_of addresses ps × AllUnique ps
unfolding no_repeats
no_repeats_sound ids keys addresses [] h = (tt, tt, tt, (tt, tt, tt))
no_repeats_sound ids keys addresses (p ∷ ps) h =
    let rest : (contains p.peer_id ids ≡ false)
        × (contains p.public_key keys ≡ false)
        × (contains p.address addresses ≡ false)
        × (no_repeats (p.peer_id ∷ ids) (p.public_key ∷ keys) (p.address ∷ addresses) ps ≡ true) =
      ground arith in
    let (i, k, a, (ui, uk, ua)) = no_repeats_sound _ _ _ ps rest.3 in
    let (oi, ni) = NoClash-cons id_of p.peer_id ids ps i in
    let (o_k, nk) = NoClash-cons key_of p.public_key keys ps k in
    let (oa, na) = NoClash-cons address_of p.address addresses ps a in
    ((rest.0, ni), (rest.1, nk), (rest.2, na), ((oi, ui), (o_k, uk), (oa, ua)))

no_repeats_complete :
    (ids : List PeerId) (keys : List WireGuardPublicKey) (addresses : List OverlayAddress)
    (ps : List GatewayPeer)
    → NoClash id_of ids ps
    → NoClash key_of keys ps
    → NoClash address_of addresses ps
    → AllUnique ps
    → no_repeats ids keys addresses ps ≡ true
unfolding no_repeats
no_repeats_complete ids keys addresses [] i k a u = refl
no_repeats_complete ids keys addresses (p ∷ ps) i k a (ui, uk, ua) =
    rw (i.0, k.0, a.0)
      (no_repeats_complete _ _ _ ps (cons-NoClash id_of _ ids ps ui.0 i.1)
        (cons-NoClash key_of _ keys ps uk.0 k.1) (cons-NoClash address_of _ addresses ps ua.0 a.1)
        (ui.1, uk.1, ua.1))

-- The loop accepts exactly the lists in which ids, keys and addresses are pairwise different.
pub no_repeats_iff : (ps : List GatewayPeer) → (no_repeats [] [] [] ps ≡ true) ↔ AllUnique ps
no_repeats_iff ps = (
  λ h. (no_repeats_sound [] [] [] ps h).3,
  no_repeats_complete [] [] [] ps (NoClash-nil id_of ps) (NoClash-nil key_of ps)
      (NoClash-nil address_of ps),
)
