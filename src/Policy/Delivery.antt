-- ===== src/Policy/Delivery.antt =====
-- `PeerDelivery` and `GatewayAcknowledgement` of policy/src/contract.rs.
-- The slice of twelve characters is of a digest of 64, so it does not panic.
pub mod Laws
use rs_console.Common.{
  ℕ, Bool, ◌&&◌, ◌∷◌, ◌++◌, Text, bytes, ◌==◌, nat_eq, text_eq, bool_eq, take, Result, ◌>>=◌, ok,
}
use rs_console.Common.Decimal.{print_nat}
use rs_console.Policy.Ids.{PolicyError, GatewayId, ManifestDigest}
use rs_console.Policy.Manifest.{Generation, PeerManifest, schema_version, wg_users, address_eq}
use rs_console.Policy.Digest.{Externals, digest}

pub record PeerDelivery : Type 0 where
  pub schema_version : ℕ
  pub gateway_id : GatewayId
  pub delivery_id : Text
  pub manifest_digest : ManifestDigest
  pub manifest : PeerManifest

-- `format!("wg-users-{}-{}", generation, &digest[..12])`.
unfoldable pub delivery_name : Generation → ManifestDigest → Text
unfolding print_nat
delivery_name generation digest =
    bytes "wg-users-" ++ (print_nat generation ++ (b'-' ∷ take 12 digest))

-- `PeerDelivery::new`.
unfoldable pub new_delivery : Externals → GatewayId → PeerManifest → Result PolicyError PeerDelivery
new_delivery x gateway_id manifest = do
  manifest_digest ← digest x manifest
  ok (record {
    schema_version = schema_version;
    gateway_id = gateway_id;
    delivery_id = delivery_name manifest.generation manifest_digest;
    manifest_digest = manifest_digest;
    manifest = manifest;
  })

pub record GatewayAcknowledgement : Type 0 where
  pub schema_version : ℕ
  pub gateway_id : GatewayId
  pub delivery_id : Text
  pub interface : Text
  pub generation : Generation
  pub manifest_digest : ManifestDigest
  pub outcome : Text

-- `GatewayAcknowledgement::applied`.
unfoldable pub applied : PeerDelivery → GatewayAcknowledgement
applied delivery = record {
  schema_version = schema_version;
  gateway_id = delivery.gateway_id;
  delivery_id = delivery.delivery_id;
  interface = wg_users;
  generation = delivery.manifest.generation;
  manifest_digest = delivery.manifest_digest;
  outcome = bytes "applied";
}

-- `GatewayAcknowledgement::matches`.
unfoldable pub matches : GatewayAcknowledgement → PeerDelivery → Bool
matches a delivery =
    a.schema_version == schema_version
    && a.gateway_id == delivery.gateway_id
    && a.delivery_id == delivery.delivery_id
    && a.interface == wg_users
    && a.generation == delivery.manifest.generation
    && a.manifest_digest == delivery.manifest_digest
    && a.outcome == bytes "applied"
