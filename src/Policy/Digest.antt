-- ===== src/Policy/Digest.antt =====
-- `PeerManifest::digest` of policy/src/contract.rs, with the JSON form that serde derives.
-- `serde_json`'s quoting of a string and `sha2` are parameters.
use rs_console.Common.{Option, List, [], ◌∷◌, Text, bytes, Result, ◌>>=◌, ok}
use rs_console.Common.Decimal.{print_nat}
use rs_console.Policy.Ids.{PolicyError, ManifestDigest}
use rs_console.Policy.Address.{display}
use rs_console.Policy.Canonical.{
  Json, Items, canonical, number, string, array, object, nil, cons, end, field,
}
use rs_console.Policy.Manifest.{
  HealthPolicy, Permission, GatewayPeer, PeerManifest, required, on_demand, egress, games,
}

-- `serde_json::to_string` of a string (`none` where it fails), and the digest in lower-case
-- hexadecimal.
pub record Externals : Type 0 where
  pub quote : Text → Option Text
  pub sha256_hex : Text → Text

abbrev health_value : HealthPolicy → Json
health_value required = string (bytes "required")
health_value on_demand = string (bytes "on_demand")

abbrev permission_value : Permission → Json
permission_value egress = string (bytes "egress")
permission_value games = string (bytes "games")

permission_values : List Permission → Items
permission_values [] = nil
permission_values (p ∷ ps) = cons (permission_value p) (permission_values ps)

-- The fields of a peer, in the order of the struct.
pub peer_value : GatewayPeer → Json
unfolding permission_values display
peer_value p = object (
    field (bytes "peer_id") (string p.peer_id) (
      field (bytes "public_key") (string p.public_key) (
        field (bytes "address") (string (display p.address)) (
          field (bytes "health_policy") (health_value p.health_policy)
            (field (bytes "permissions") (array (permission_values p.permissions)) end)))))

pub peer_values : List GatewayPeer → Items
unfolding peer_value
peer_values [] = nil
peer_values (p ∷ ps) = cons (peer_value p) (peer_values ps)

-- `serde_json::to_value` of a manifest.
unfoldable pub manifest_value : PeerManifest → Json
unfolding peer_values print_nat
manifest_value m = object (
    field (bytes "schema_version") (number (print_nat m.schema_version)) (
      field (bytes "interface") (string m.interface) (
        field (bytes "generation") (number (print_nat m.generation)) (
          field (bytes "generated_at") (string m.generated_at)
            (field (bytes "peers") (array (peer_values m.peers)) end)))))

-- `PeerManifest::digest`.
unfoldable pub digest : Externals → PeerManifest → Result PolicyError ManifestDigest
unfolding manifest_value canonical
digest x m = do text ← canonical x.quote (manifest_value m); ok (x.sha256_hex text)
