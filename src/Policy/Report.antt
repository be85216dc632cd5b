-- ===== src/Policy/Report.antt =====
-- `AppliedInterface` and `GatewayStateReport` of policy/src/contract.rs.
pub mod Laws
use rs_console.Common.{
  ℕ, Bool, ◌&&◌, ◌||◌, Option, List, [], ◌∷◌, map, leb, if◌then◌else◌, Text, bytes, ◌==◌, nat_eq,
  text_eq, bool_eq, length, all, find,
}
use rs_console.Policy.Ids.{GatewayId, ManifestDigest}
use rs_console.Policy.Manifest.{Generation, wg_users, wg_nodes, address_eq, contains}

pub record AppliedInterface : Type 0 where
  pub interface : Text
  pub generation : Generation
  pub manifest_digest : ManifestDigest

-- `AppliedInterface::wg_users`.
abbrev pub applied_wg_users : Generation → ManifestDigest → AppliedInterface
applied_wg_users generation manifest_digest = record {
  interface = bytes "wg-users";
  generation = generation;
  manifest_digest = manifest_digest;
}

-- `AppliedInterface::is_wg_users`.
unfoldable pub is_wg_users : AppliedInterface → Bool
is_wg_users state = state.interface == wg_users

pub record GatewayStateReport : Type 0 where
  pub schema_version : ℕ
  pub gateway_id : GatewayId
  pub applied : List AppliedInterface

-- `GatewayStateReport::new`.
abbrev pub new_report : GatewayId → List AppliedInterface → GatewayStateReport
new_report gateway_id states = record {
  schema_version = 1;
  gateway_id = gateway_id;
  applied = states;
}

-- `GatewayStateReport::wg_users`.
unfoldable pub wg_users_state : GatewayStateReport → Option AppliedInterface
unfolding is_wg_users
wg_users_state report = find is_wg_users report.applied

abbrev pub interfaces : List AppliedInterface → List Text
interfaces states = map (λ s. s.interface) states

-- `collect::<HashSet<_>>`: each text once.
unfoldable pub to_set : List Text → List Text
to_set [] = []
to_set (t ∷ ts) = let rest = to_set ts in if contains t rest then rest else t ∷ rest

-- `GatewayStateReport::is_supported`.
unfoldable pub is_supported : GatewayStateReport → Bool
unfolding to_set
is_supported report =
    let names = to_set (interfaces report.applied) in
    report.schema_version == 1
    && leb (length report.applied) 2
    && length names == length report.applied
    && all (λ name. name == wg_users || name == wg_nodes) names
