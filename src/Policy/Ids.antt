-- ===== src/Policy/Ids.antt =====
-- policy/src/error.rs, and the identifiers and keys of policy/src/vpn.rs and contract.rs.
-- A tuple struct around one string is that string; `new` is its only way in, also for serde.
use rs_console.Common.{
  ℕ, Bool, false, ◌&&◌, ◌||◌, Option, none, some, [], ◌∷◌, leb, if◌then◌else◌, Text, ◌==◌, nat_eq,
  text_eq, length, all, Result, ok, err,
}

pub data PolicyError : Type 0 where
  invalid_identifier invalid_public_key invalid_address invalid_generation : PolicyError
  invalid_generated_at too_many_peers duplicate_peer_identity peer_already_exists : PolicyError
  peer_not_found address_pool_exhausted serialization : PolicyError

unfoldable pub is_ascii_digit : ℕ → Bool
is_ascii_digit c = leb b'0' c && leb c b'9'

unfoldable pub is_ascii_alphanumeric : ℕ → Bool
unfolding is_ascii_digit
is_ascii_alphanumeric c =
    is_ascii_digit c || (leb b'A' c && leb c b'Z') || (leb b'a' c && leb c b'z')

unfoldable pub is_opaque_character : ℕ → Bool
unfolding is_ascii_alphanumeric
is_opaque_character c = is_ascii_alphanumeric c || c == b'_' || c == b'.' || c == b':' || c == b'-'

unfoldable pub valid_opaque_id : Text → Bool
unfolding is_opaque_character
valid_opaque_id [] = false
valid_opaque_id (first ∷ characters) =
    leb (length (first ∷ characters)) 128
    && is_ascii_alphanumeric first
    && all is_opaque_character characters

abbrev pub UserId : Type 0
UserId = Text

abbrev pub PeerId : Type 0
PeerId = Text

abbrev pub GatewayId : Type 0
GatewayId = PeerId

-- `UserId::new`, `PeerId::new` and `GatewayId::new`.
unfoldable pub new_id : Text → Result PolicyError Text
new_id value = if valid_opaque_id value then ok value else err invalid_identifier

abbrev pub WireGuardPublicKey : Type 0
WireGuardPublicKey = Text

-- `str::ends_with` of one ASCII character.
unfoldable pub ends_with : ℕ → Text → Bool
ends_with c [] = false
ends_with c (x ∷ []) = x == c
ends_with c (x ∷ y ∷ s) = ends_with c (y ∷ s)

-- `WireGuardPublicKey::new`, over the standard base64 decoder (`none` where it fails).
unfoldable pub new_key : (Text → Option Text) → Text → Result PolicyError WireGuardPublicKey
new_key decode value = elim (decode value) [
  | none ↦ err invalid_public_key
  | some decoded ↦
      if length value == 44 && ends_with b'=' value && length decoded == 32
      then ok value
      else err invalid_public_key
]

abbrev pub ManifestDigest : Type 0
ManifestDigest = Text

unfoldable pub is_lower_hex : ℕ → Bool
unfolding is_ascii_digit
is_lower_hex c = is_ascii_digit c || (leb b'a' c && leb c b'f')

-- `ManifestDigest::new`.
unfoldable pub new_digest : Text → Result PolicyError ManifestDigest
unfolding is_lower_hex
new_digest value =
    if length value == 64 && all is_lower_hex value then ok value else err serialization
