-- ===== src/Sync/Memory/Cycle.antt =====
-- The whole cycle of a gateway over the in-memory store.
use rs_console.Common.{
  ◌≡◌, refl, ap, ◌∙◌, false, none, some, [], ◌∷◌, arith, if◌then◌else◌, ◌==◌, nat_eq, text_eq,
  bool_eq, ok,
}
use rs_console.Common.Map.{insert, get-insert}
use rs_console.Policy.Ids.{GatewayId, ManifestDigest}
use rs_console.Policy.Manifest.{PeerManifest, address_eq}
use rs_console.Policy.Digest.{Externals}
use rs_console.Policy.Delivery.{PeerDelivery, applied}
use rs_console.Policy.Report.{applied_wg_users, GatewayStateReport, new_report}
use rs_console.Sync.{from_store, poll, acknowledge}
use rs_console.Sync.Converges.{acknowledge_delivered, poll_after_apply}
use rs_console.Sync.Memory.{InMemory, read_applied, memory_desired, memory_record, in_memory}

-- What the store is after a manifest was recorded for a gateway.
abbrev recorded : InMemory → GatewayId → PeerManifest → ManifestDigest → InMemory
recorded s id m d = record s {
  applied = record { poisoned = s.applied.poisoned; value = insert id (m, d) s.applied.value };
}

memory_record_lem :
    (s : InMemory) (id : GatewayId) (m : PeerManifest) (d : ManifestDigest)
    → s.applied.poisoned ≡ false
    → memory_record s id m d ≡ (recorded s id m d, ok tt)
unfolding memory_record
memory_record_lem s id m d fine = ground arith

read_recorded :
    (s : InMemory) (id j : GatewayId) (m : PeerManifest) (d : ManifestDigest)
    → s.applied.poisoned ≡ false
    → read_applied (recorded s id m d) j ≡ (if id == j then ok (some (m, d)) else read_applied s j)
unfolding read_applied
read_recorded s id j m d fine = ground (arith, get-insert id j (m, d) s.applied.value)

desired_recorded :
    (s : InMemory) (id j : GatewayId) (m : PeerManifest) (d : ManifestDigest)
    → memory_desired (recorded s id m d) j ≡ memory_desired s j
unfolding memory_desired
desired_recorded s id j m d = refl

-- While the store's lock on what gateways applied is not poisoned, a gateway that gets a delivery and
-- acknowledges it is accepted: the store then holds the delivered manifest and digest as what that gateway applied, holds for all others what it held before, and
-- answers the gateway's next report, of the delivered state, with nothing.
pub memory_cycle :
    (x : Externals) (s : InMemory) (report : GatewayStateReport) (delivery : PeerDelivery)
    → s.applied.poisoned ≡ false
    → poll x in_memory s report ≡ ok (some delivery)
    → let (s', r) = acknowledge x in_memory s (applied delivery) in
      (r ≡ ok tt)
      × ((j : GatewayId)
          → read_applied s' j ≡ (
              if report.gateway_id == j
              then ok (some (delivery.manifest, delivery.manifest_digest))
              else read_applied s j))
      × (poll x in_memory s' (
            new_report report.gateway_id
              (applied_wg_users delivery.manifest.generation delivery.manifest_digest ∷ []))
          ≡ ok none)
memory_cycle x s report delivery fine e =
    let id = report.gateway_id in
    let m = delivery.manifest in
    let d = delivery.manifest_digest in
    let done : acknowledge x in_memory s (applied delivery) ≡ (recorded s id m d, ok tt) =
      acknowledge_delivered x in_memory s report delivery e
      ∙ ap (λ p. (p.0, from_store p.1)) (memory_record_lem s id m d fine) in
    rw done (
      refl,
      λ j. read_recorded s id j m d fine,
      poll_after_apply x in_memory s (recorded s id m d) report delivery e
          (desired_recorded s id id m d),
    )
