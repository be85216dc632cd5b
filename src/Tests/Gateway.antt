-- ===== src/Tests/Gateway.antt =====
-- The tests of api/src/lib.rs, and its theorems at concrete inputs.
use rs_console.Common.{
  ◌≡◌, refl, ◌↔◌, true, false, none, some, [], ◌∷◌, ℕ_discrete, if◌then◌else◌, bytes, ◌==◌,
  Text-discrete, nat_eq, text_eq, bool_eq, ok, err,
}
use rs_console.Common.Map.{get, insert}
use rs_console.Policy.Canonical.{sort_keys, join_items, join_entries, canonical}
use rs_console.Policy.Manifest.{PeerManifest, address_eq}
use rs_console.Policy.Digest.{manifest_value, digest}
use rs_console.Policy.Delivery.{PeerDelivery, delivery_name, new_delivery, applied, matches}
use rs_console.Policy.Report.{
  applied_wg_users, GatewayStateReport, new_report, wg_users_state, is_supported,
}
use rs_console.Sync.{from_store, poll, acknowledge, applied_conflict}
use rs_console.Sync.Polls.{Desires, IsConverged, IsStale, poll-none_iff, poll-some_iff}
use rs_console.Sync.Converges.{acknowledge-ok, acknowledge_delivered}
use rs_console.Sync.Memory.{InMemory, read_applied, memory_desired, memory_record, in_memory}
use rs_console.Sync.Memory.Cycle.{memory_cycle}
use rs_console.Tests.Contract.{plain, small_manifest, small_delivery}
use rs_console.Policy.Ids.{GatewayId, ManifestDigest}
use rs_console.Common.Order.{text_ltb}

sync_run : Unit {0}
unfolding poll acknowledge is_supported wg_users_state memory_desired memory_record new_delivery
    delivery_name digest canonical manifest_value sort_keys join_entries join_items get insert
    matches applied text_ltb Text-discrete ℕ_discrete
sync_run = tt

abbrev desired_store : InMemory
desired_store = record {
  desired = record { poisoned = false; value = (bytes "gateway-1", small_manifest) ∷ [] };
  applied = record { poisoned = false; value = [] };
}

abbrev empty_report : GatewayStateReport
empty_report = new_report (bytes "gateway-1") []

abbrev converged_report : GatewayStateReport
converged_report =
    new_report (bytes "gateway-1") (applied_wg_users 12 small_delivery.manifest_digest ∷ [])

initial_poll : poll plain in_memory desired_store empty_report ≡ ok (some small_delivery)
unfolding sync_run
initial_poll = refl

conflict :
    poll plain in_memory desired_store
      (new_report (bytes "gateway-1") (applied_wg_users 12 (bytes "0000") ∷ []))
    ≡ err applied_conflict
unfolding sync_run
conflict = refl

poll-none_iff_example : (poll plain in_memory desired_store converged_report ≡ ok none) ↔ (
    (is_supported converged_report ≡ true)
    × ((m : PeerManifest) × (d : ManifestDigest) × Desires plain in_memory desired_store
          converged_report.gateway_id m d
        × IsConverged plain in_memory (wg_users_state converged_report) m d))
poll-none_iff_example = poll-none_iff plain in_memory desired_store converged_report

poll-some_iff_example :
    (poll plain in_memory desired_store empty_report ≡ ok (some small_delivery)) ↔ (
      (is_supported empty_report ≡ true)
      × ((m : PeerManifest) × (d : ManifestDigest) × Desires plain in_memory desired_store
            empty_report.gateway_id m d
          × (new_delivery plain empty_report.gateway_id m ≡ ok small_delivery)
          × IsStale plain in_memory (wg_users_state empty_report) m))
poll-some_iff_example = poll-some_iff plain in_memory desired_store empty_report small_delivery

acknowledge-ok_example :
    (m : PeerManifest) × (delivery : PeerDelivery) × (memory_desired desired_store
        (bytes "gateway-1")
      ≡ ok (some m))
    × (new_delivery plain (bytes "gateway-1") m ≡ ok delivery)
    × (applied small_delivery ≡ applied delivery)
    × (memory_record desired_store (bytes "gateway-1") m delivery.manifest_digest ≡ (
      record desired_store {
        applied = record {
          poisoned = false;
          value = (bytes "gateway-1", (small_manifest, small_delivery.manifest_digest)) ∷ [];
        };
      },
      ok tt,
    ))
unfolding sync_run
acknowledge-ok_example =
    acknowledge-ok plain in_memory desired_store _ (applied small_delivery) refl

acknowledge_delivered_example :
    acknowledge plain in_memory desired_store (applied small_delivery) ≡ (
      let (s', r) =
        memory_record desired_store
          (bytes "gateway-1")
          small_manifest
          small_delivery.manifest_digest in
      (s', from_store r))
acknowledge_delivered_example =
    acknowledge_delivered plain in_memory desired_store empty_report small_delivery initial_poll

memory_cycle_example :
    let (s', r) = acknowledge plain in_memory desired_store (applied small_delivery) in
    (r ≡ ok tt)
    × ((j : GatewayId)
        → read_applied s' j ≡ (
            if empty_report.gateway_id == j
            then ok (some (small_manifest, small_delivery.manifest_digest))
            else read_applied desired_store j))
    × (poll plain in_memory s' converged_report ≡ ok none)
memory_cycle_example =
    memory_cycle plain desired_store empty_report small_delivery refl initial_poll
