-- ===== src/Tests/Contract.antt =====
-- The tests of policy/src/contract.rs, and its theorems at concrete inputs.
use mathlib.Core.HLevel.{⊥_prop}
use mathlib.Core.List.{Nodup-cons, Nodup-nil, not-mem-nil, eq-or-mem_of_mem-cons}
use mathlib.Core.List.Perm
use mathlib.Core.Logic.Or
use rs_console.Common.{
  ◌≡◌, refl, ◌↔◌, true, false, some, [], ◌∷◌, ◌++◌, arith, ℕ_discrete, bytes, Text-discrete, take,
  ok,
}
use rs_console.Policy.Canonical.{
  Fields, sort_keys, join_items, join_entries, canonical, null, bool, object, end, field,
}
use rs_console.Policy.Canonical.KeyOrder.{canonical-perm}
use rs_console.Policy.Manifest.{PeerManifest, on_demand, egress}
use rs_console.Policy.Digest.{Externals, manifest_value, digest}
use rs_console.Policy.Delivery.{PeerDelivery, delivery_name, new_delivery}
use rs_console.Policy.Report.{applied_wg_users, GatewayStateReport, new_report, is_supported}
use rs_console.Common.Order.{text_ltb}
use rs_console.Policy.Timestamp.{valid_utc_timestamp}
use rs_console.Policy.Timestamp.Calendar.{IsMoment, IsFraction}
use rs_console.Policy.Timestamp.Printed.{valid_utc_timestamp-printed_iff}

-- Quoting without escapes, and a stand-in for the digest that shows where the text went.
abbrev pub plain : Externals
plain = record { quote = λ t. some (b'"' ∷ (t ++ b'"' ∷ [])); sha256_hex = λ t. take 64 t }

abbrev pub small_manifest : PeerManifest
small_manifest = record {
  schema_version = 1;
  interface = bytes "wg-users";
  generation = 12;
  generated_at = bytes "2026-08-01T20:00:00Z";
  peers =
      record {
        peer_id = bytes "peer-1";
        public_key = bytes "key-1";
        address = record { a = 10; b = 100; c = 0; d = 2 };
        health_policy = on_demand;
        permissions = egress ∷ [];
      }
      ∷ [];
}

canonical_text :
    canonical plain.quote (manifest_value small_manifest)
    ≡ ok (
        bytes
          "{\"generated_at\":\"2026-08-01T20:00:00Z\",\"generation\":12,\"interface\":\"wg-users\",\"peers\":[{\"address\":\"10.100.0.2/32\",\"health_policy\":\"on_demand\",\"peer_id\":\"peer-1\",\"permissions\":[\"egress\"],\"public_key\":\"key-1\"}],\"schema_version\":1}")
unfolding canonical manifest_value sort_keys join_entries join_items text_ltb ℕ_discrete
canonical_text = refl

abbrev pub small_delivery : PeerDelivery
small_delivery = record {
  schema_version = 1;
  gateway_id = bytes "gateway-1";
  delivery_id = bytes "wg-users-12-{\"generated_";
  manifest_digest = take 64 (
      bytes
        "{\"generated_at\":\"2026-08-01T20:00:00Z\",\"generation\":12,\"interface\":\"wg-users\"");
  manifest = small_manifest;
}

delivery_made : new_delivery plain (bytes "gateway-1") small_manifest ≡ ok small_delivery
unfolding new_delivery delivery_name digest canonical manifest_value sort_keys join_entries
    join_items text_ltb ℕ_discrete
delivery_made = refl

abbrev both_interfaces : GatewayStateReport
both_interfaces = new_report (bytes "gateway-1") (
    record { interface = bytes "wg-nodes"; generation = 3; manifest_digest = bytes "d" }
    ∷ applied_wg_users 4 (bytes "e")
    ∷ [])

repeated_interface :
    is_supported (
      new_report (bytes "g") (applied_wg_users 4 (bytes "e") ∷ applied_wg_users 5 (bytes "e") ∷ []))
    ≡ false
unfolding is_supported Text-discrete ℕ_discrete
repeated_interface = refl

abbrev a_then_b : Fields
a_then_b = field (bytes "a") null (field (bytes "b") (bool true) end)

abbrev b_then_a : Fields
b_then_a = field (bytes "b") (bool true) (field (bytes "a") null end)

canonical-perm_example :
    canonical plain.quote (object a_then_b) ≡ canonical plain.quote (object b_then_a)
canonical-perm_example =
    canonical-perm plain.quote a_then_b b_then_a
      (Nodup-cons.1 (
        λ m.
            Or.elim ⊥_prop (eq-or-mem_of_mem-cons m)
              (λ e. let e' : bytes "a" ≡ bytes "b" = e in ground arith) not-mem-nil,
        Nodup-cons.1 (not-mem-nil, Nodup-nil),
      ))
      (Perm.swap _ _ _)

valid_utc_timestamp-printed_iff_example :
    (valid_utc_timestamp (bytes "2024-02-29T23:59:59.123Z") ≡ true)
    ↔ (IsFraction (bytes ".123") × IsMoment 2024 2 29 23 59 59)
valid_utc_timestamp-printed_iff_example =
    valid_utc_timestamp-printed_iff 2024 2 29 23 59 59 (bytes ".123") (omega arith) (omega arith)
      (omega arith) (omega arith) (omega arith) (omega arith)
