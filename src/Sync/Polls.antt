-- ===== src/Sync/Polls.antt =====
-- Which reports `poll` answers with nothing, and which with a delivery.
use rs_console.Common.{
  ◌<◌, ◌≡◌, ◌∙◌, ◌↔◌, inl, inr, true, Option, none, some, arith, Bool-cases, >>=-eq-ok, ok,
}
use rs_console.Policy.Ids.{GatewayId, ManifestDigest}
use rs_console.Policy.Manifest.{PeerManifest}
use rs_console.Policy.Digest.{Externals, digest}
use rs_console.Policy.Delivery.{PeerDelivery, new_delivery}
use rs_console.Policy.Report.{AppliedInterface, GatewayStateReport, wg_users_state, is_supported}
use rs_console.Sync.{GatewayStateStore, from_policy, desired_of, compare_applied, poll}

module _ {S : Type 0} (x : Externals) (stores : GatewayStateStore S) where
  -- The desired manifest of a gateway, with its digest.
  abbrev pub Desires : S → GatewayId → PeerManifest → ManifestDigest → Type 0
  Desires s id m d = (stores.desired_manifest s id ≡ ok (some m)) × (digest x m ≡ ok d)

  desired_of-ok :
      (s : S) (id : GatewayId) (m : PeerManifest)
      → desired_of x stores s id ≡ ok m
      → stores.desired_manifest s id ≡ ok (some m)
  desired_of-ok s id m e = ground arith

  -- The three parts of a poll that gets as far as the comparison.
  poll_parts :
      (s : S) (report : GatewayStateReport) (answer : Option PeerDelivery)
      → poll x stores s report ≡ ok answer
      → (is_supported report ≡ true)
        × ((m : PeerManifest) × (d : ManifestDigest) × Desires s report.gateway_id m d
            × (compare_applied x stores report.gateway_id m d (wg_users_state report) ≡ ok answer))
  unfolding poll
  poll_parts s report answer e = elim (Bool-cases (is_supported report)) [
    | inr bad ↦ absurd (ground arith)
    | inl good ↦
        let body = rw good at e in
        let (m, found, e1) = >>=-eq-ok (desired_of x stores s report.gateway_id) _ body in
        let (d, digested, e2) = >>=-eq-ok (from_policy (digest x m)) _ e1 in
        (good, (m, d, (desired_of-ok s report.gateway_id m found, ground arith), e2))
  ]

  -- The report has the desired generation with the desired digest.
  abbrev pub IsConverged : Option AppliedInterface → PeerManifest → ManifestDigest → Type 0
  IsConverged none m d = ⊥
  IsConverged (some a) m d = (a.generation ≡ m.generation) × (a.manifest_digest ≡ d)

  -- The report has no generation of `wg-users`, or an older one.
  abbrev pub IsStale : Option AppliedInterface → PeerManifest → Type 0
  IsStale none m = Unit
  IsStale (some a) m = a.generation < m.generation

  compare-none :
      (id : GatewayId) (m : PeerManifest) (d : ManifestDigest) (w : Option AppliedInterface)
      → (compare_applied x stores id m d w ≡ ok none) ↔ IsConverged w m d
  unfolding compare_applied
  compare-none id m d none = (λ e. ground arith, λ h. absurd h)
  compare-none id m d (some a) = (λ e. ground arith, λ h. ground arith)

  compare-some :
      (id : GatewayId) (m : PeerManifest) (d : ManifestDigest) (w : Option AppliedInterface)
      (delivery : PeerDelivery)
      → (compare_applied x stores id m d w ≡ ok (some delivery))
        ↔ ((new_delivery x id m ≡ ok delivery) × IsStale w m)
  unfolding compare_applied
  compare-some id m d none delivery = (λ e. (ground arith, tt), λ h. ground arith)
  compare-some id m d (some a) delivery = (λ e. ground arith, λ h. ground arith)

  poll_of_parts :
      (s : S) (report : GatewayStateReport) (m : PeerManifest) (d : ManifestDigest)
      → is_supported report ≡ true
      → Desires s report.gateway_id m d
      → poll x stores s report
        ≡ compare_applied x stores report.gateway_id m d (wg_users_state report)
  unfolding poll
  poll_of_parts s report m d good (desired, digested) = rw (good, desired, digested)

  -- A poll is answered with nothing exactly when the report is supported and its `wg-users` state
  -- has the generation and the digest of the desired manifest.
  pub poll-none_iff :
      (s : S) (report : GatewayStateReport)
      → (poll x stores s report ≡ ok none) ↔ (
          (is_supported report ≡ true)
          × ((m : PeerManifest) × (d : ManifestDigest) × Desires s report.gateway_id m d
              × IsConverged (wg_users_state report) m d))
  poll-none_iff s report = (
    λ e.
        let (good, (m, d, want, rest)) = poll_parts s report none e in
        (good, (m, d, want, (compare-none report.gateway_id m d (wg_users_state report)).0 rest)),
    λ (good, (m, d, want, converged)).
        poll_of_parts s report m d good want
        ∙ (compare-none report.gateway_id m d (wg_users_state report)).1 converged,
  )

  -- A poll is answered with a delivery exactly when the report is supported and its `wg-users` state
  -- is missing or older than the desired manifest; the delivery is that of the desired manifest.
  pub poll-some_iff :
      (s : S) (report : GatewayStateReport) (delivery : PeerDelivery)
      → (poll x stores s report ≡ ok (some delivery)) ↔ (
          (is_supported report ≡ true)
          × ((m : PeerManifest) × (d : ManifestDigest) × Desires s report.gateway_id m d
              × (new_delivery x report.gateway_id m ≡ ok delivery)
              × IsStale (wg_users_state report) m))
  poll-some_iff s report delivery = (
    λ e.
        let (good, (m, d, want, rest)) = poll_parts s report (some delivery) e in
        let (made, stale) =
          (compare-some report.gateway_id m d (wg_users_state report) delivery).0 rest in
        (good, (m, d, want, made, stale)),
    λ (good, (m, d, want, made, stale)).
        poll_of_parts s report m d good want
        ∙ (compare-some report.gateway_id m d (wg_users_state report) delivery).1 (made, stale),
  )
