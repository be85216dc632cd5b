-- ===== src/Sync/Converges.antt =====
-- Acknowledging a delivery (api/src/lib.rs).
use rs_console.Common.{
  ◌≡◌, refl, ap, ◌∙◌, subst, inl, inr, true, none, some, [], ◌∷◌, arith, ℕ_discrete, Text-discrete,
  >>=-eq-ok, Result-cases, ok,
}
use rs_console.Policy.Ids.{GatewayId}
use rs_console.Policy.Manifest.{PeerManifest}
use rs_console.Policy.Digest.{Externals, digest}
use rs_console.Policy.Delivery.{
  PeerDelivery, delivery_name, new_delivery, GatewayAcknowledgement, applied, matches,
}
use rs_console.Policy.Report.{
  applied_wg_users, GatewayStateReport, new_report, wg_users_state, is_supported,
}
use rs_console.Sync.{GatewayStateStore, from_store, desired_of, poll, acknowledge}
use rs_console.Policy.Delivery.Laws.{matches_iff}
use rs_console.Sync.Polls.{poll-none_iff, poll-some_iff}

module _ {S : Type 0} (x : Externals) (stores : GatewayStateStore S) where
  pub new_delivery_parts :
      (id : GatewayId) (m : PeerManifest) (delivery : PeerDelivery)
      → new_delivery x id m ≡ ok delivery
      → (delivery.gateway_id ≡ id)
        × (delivery.manifest ≡ m)
        × (digest x m ≡ ok delivery.manifest_digest)
        × (delivery.delivery_id ≡ delivery_name m.generation delivery.manifest_digest)
  unfolding new_delivery
  new_delivery_parts id m delivery e =
      let (d, digested, made) = >>=-eq-ok (digest x m) _ e in ground arith

  -- An acknowledgement is accepted only if it is the one that `applied` makes of the delivery of the
  -- manifest that is desired for its gateway; exactly that manifest and its digest are then recorded.
  pub acknowledge-ok :
      (s s' : S) (a : GatewayAcknowledgement)
      → acknowledge x stores s a ≡ (s', ok tt)
      → (m : PeerManifest) × (delivery : PeerDelivery) × (stores.desired_manifest s a.gateway_id
          ≡ ok (some m))
        × (new_delivery x a.gateway_id m ≡ ok delivery)
        × (a ≡ applied delivery)
        × (stores.record_applied s a.gateway_id m delivery.manifest_digest ≡ (s', ok tt))
  unfolding acknowledge
  acknowledge-ok s s' a e = elim (Result-cases (desired_of x stores s a.gateway_id)) [
    | inr (bad, missing) ↦ absurd (ground arith)
    | inl (m, found) ↦ elim (Result-cases (new_delivery x a.gateway_id m)) [
      | inr (bad, failed) ↦ absurd (ground arith)
      | inl (delivery, made) ↦ (
        m,
        delivery,
        ground arith,
        made,
        ground (arith, (matches_iff a delivery).0),
        ground arith,
      )
    ]
  ]

  acknowledge_exact :
      (s : S) (a : GatewayAcknowledgement) (m : PeerManifest) (delivery : PeerDelivery)
      → stores.desired_manifest s a.gateway_id ≡ ok (some m)
      → new_delivery x a.gateway_id m ≡ ok delivery
      → matches a delivery ≡ true
      → acknowledge x stores s a ≡ (
          let (s', r) = stores.record_applied s a.gateway_id m delivery.manifest_digest in
          (s', from_store r))
  unfolding acknowledge
  acknowledge_exact s a m delivery desired made exact = ground arith

  -- The answer to a poll, applied and acknowledged, is recorded for the gateway that polled.
  pub acknowledge_delivered :
      (s : S) (report : GatewayStateReport) (delivery : PeerDelivery)
      → poll x stores s report ≡ ok (some delivery)
      → acknowledge x stores s (applied delivery) ≡ (
          let (s', r) =
            stores.record_applied s report.gateway_id delivery.manifest delivery.manifest_digest in
          (s', from_store r))
  unfolding applied
  acknowledge_delivered s report delivery e =
      let (good, (m, d, (desired, digested), made, stale)) =
        (poll-some_iff x stores s report delivery).0 e in
      let (same_id, same_manifest, _, _) = new_delivery_parts report.gateway_id m delivery made in
      let exact = (matches_iff (applied delivery) delivery).1 refl in
      subst
        (λ id. acknowledge x stores s (applied delivery) ≡ (
          let (s', r) = stores.record_applied s id delivery.manifest delivery.manifest_digest in
          (s', from_store r)))
        same_id
        (acknowledge_exact s (applied delivery) delivery.manifest delivery
          (cc (same_id, same_manifest, desired)) (cc (same_id, same_manifest, made)) exact)

  -- A gateway that reports the generation and the digest of its delivery is told that it is up to
  -- date, as long as the desired manifest is the same.
  pub poll_after_apply :
      (s s' : S) (report : GatewayStateReport) (delivery : PeerDelivery)
      → poll x stores s report ≡ ok (some delivery)
      → stores.desired_manifest s' report.gateway_id ≡ stores.desired_manifest s report.gateway_id
      → poll x stores s' (
          new_report report.gateway_id
            (applied_wg_users delivery.manifest.generation delivery.manifest_digest ∷ []))
        ≡ ok none
  unfolding is_supported wg_users_state Text-discrete ℕ_discrete
  poll_after_apply s s' report delivery e same =
      let (good, (m, d, (desired, digested), made, stale)) =
        (poll-some_iff x stores s report delivery).0 e in
      let (_, same_manifest, same_digest, _) =
        new_delivery_parts report.gateway_id m delivery made in
      (poll-none_iff x stores s' _).1 (
        refl,
        (
          m,
          delivery.manifest_digest,
          (same ∙ desired, same_digest),
          (ap (λ n. n.generation) same_manifest, refl),
        ),
      )
