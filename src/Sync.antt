-- ===== src/Sync.antt =====
-- The crate api (api/src/lib.rs): a gateway polls for its desired manifest and acknowledges what it
-- applied. The store is an interface; a call of it takes the store's state and returns it with the
-- result, and `desired_manifest`, which takes `&self` and only reads, returns the result alone.
pub mod Memory
pub mod Polls
pub mod Converges
use rs_console.Common.{
  compare, Ordering, not, Option, none, some, if◌then◌else◌, ◌==◌, nat_eq, text_eq, bool_eq, Result,
  ◌>>=◌, ok_or, ok, err,
}
use rs_console.Policy.Ids.{PolicyError, GatewayId, ManifestDigest}
use rs_console.Policy.Manifest.{PeerManifest, address_eq}
use rs_console.Policy.Digest.{Externals, digest}
use rs_console.Policy.Delivery.{
  PeerDelivery, new_delivery, GatewayAcknowledgement, applied, matches,
}
use rs_console.Policy.Report.{AppliedInterface, GatewayStateReport, wg_users_state, is_supported}

pub data StoreError : Type 0 where
  unavailable : StoreError

-- The trait `GatewayStateStore`, over the states of a store.
pub record GatewayStateStore (S : Type 0) : Type 0 where
  pub desired_manifest : S → GatewayId → Result StoreError (Option PeerManifest)
  pub record_applied :
      S → GatewayId → PeerManifest → ManifestDigest → S × Result StoreError (Unit {0})

pub data SyncError : Type 0 where
  invalid_report unconfigured_gateway gateway_ahead applied_conflict : SyncError
  acknowledgement_mismatch : SyncError
  policy : PolicyError → SyncError
  store : StoreError → SyncError

-- `?` on an error of the policy crate or of the store.
abbrev pub from_policy {ℓ} : {A : Type ℓ} → Result PolicyError A → Result SyncError A
from_policy (ok a) = ok a
from_policy (err e) = err (policy e)

abbrev pub from_store {ℓ} : {A : Type ℓ} → Result StoreError A → Result SyncError A
from_store (ok a) = ok a
from_store (err e) = err (store e)

module _ {S : Type 0} (x : Externals) (stores : GatewayStateStore S) where
  -- The manifest that the store holds for a gateway.
  abbrev pub desired_of : S → GatewayId → Result SyncError PeerManifest
  desired_of s gateway_id = do
    desired ← from_store (stores.desired_manifest s gateway_id)
    ok_or unconfigured_gateway desired

  abbrev pub deliver : GatewayId → PeerManifest → Result SyncError (Option PeerDelivery)
  deliver gateway_id desired = do
    delivery ← from_policy (new_delivery x gateway_id desired)
    ok (some delivery)

  -- The comparison of the reported generation with the desired one.
  unfoldable pub compare_applied :
      GatewayId
      → PeerManifest
      → ManifestDigest
      → Option AppliedInterface
      → Result SyncError (Option PeerDelivery)
  compare_applied gateway_id desired desired_digest none = deliver gateway_id desired
  compare_applied gateway_id desired desired_digest (some applied) =
      elim (compare applied.generation desired.generation) [
        | Ordering.lt ↦ deliver gateway_id desired
        | Ordering.gt ↦ err gateway_ahead
        | Ordering.eq ↦
            if applied.manifest_digest == desired_digest then ok none else err applied_conflict
      ]

  -- `GatewaySyncService::poll`.
  unfoldable pub poll : S → GatewayStateReport → Result SyncError (Option PeerDelivery)
  unfolding compare_applied
  poll s report = if not (is_supported report) then err invalid_report else (do
    desired ← desired_of s report.gateway_id
    desired_digest ← from_policy (digest x desired)
    compare_applied report.gateway_id desired desired_digest (wg_users_state report))

  -- `GatewaySyncService::acknowledge`.
  unfoldable pub acknowledge : S → GatewayAcknowledgement → S × Result SyncError (Unit {0})
  acknowledge s a = elim (desired_of s a.gateway_id) [
    | err e ↦ (s, err e)
    | ok desired ↦ elim (from_policy (new_delivery x a.gateway_id desired)) [
      | err e ↦ (s, err e)
      | ok delivery ↦
          if not (matches a delivery)
          then (s, err acknowledgement_mismatch)
          else (let (s', r) =
                stores.record_applied s a.gateway_id desired delivery.manifest_digest in
              (s', from_store r))
    ]
  ]
