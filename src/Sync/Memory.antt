-- ===== src/Sync/Memory.antt =====
-- `InMemoryGatewayStateStore` of api/src/lib.rs: two maps, each behind a lock. A lock is poisoned
-- when a thread panicked while it held it; a call then answers that the store is unavailable.
pub mod Cycle
use rs_console.Common.{Bool, Option, if◌then◌else◌, Result, ◌>>=◌, ok, err}
use rs_console.Common.Map.{Map, get, insert}
use rs_console.Policy.Ids.{GatewayId, ManifestDigest}
use rs_console.Policy.Manifest.{PeerManifest}
use rs_console.Sync.{StoreError, GatewayStateStore, unavailable}

pub record Lock (A : Type 0) : Type 0 where
  pub poisoned : Bool
  pub value : A

-- `read().map_err(..)?` and `write().map_err(..)?`.
abbrev pub enter : {A : Type 0} → Lock A → Result StoreError A
enter lock = if lock.poisoned then err unavailable else ok lock.value

pub record InMemory : Type 0 where
  pub desired : Lock (Map PeerManifest)
  pub applied : Lock (Map (PeerManifest × ManifestDigest))

-- `set_desired`.
unfoldable pub set_desired :
    InMemory → GatewayId → PeerManifest → InMemory × Result StoreError (Unit {0})
set_desired s id m = elim (enter s.desired) [
  | err e ↦ (s, err e)
  | ok desired ↦ (
    record s { desired = record { poisoned = s.desired.poisoned; value = insert id m desired } },
    ok tt,
  )
]

-- `applied`.
unfoldable pub read_applied :
    InMemory → GatewayId → Result StoreError (Option (PeerManifest × ManifestDigest))
read_applied s id = do applied ← enter s.applied; ok (get id applied)

unfoldable pub memory_desired : InMemory → GatewayId → Result StoreError (Option PeerManifest)
memory_desired s id = do desired ← enter s.desired; ok (get id desired)

unfoldable pub memory_record :
    InMemory → GatewayId → PeerManifest → ManifestDigest → InMemory × Result StoreError (Unit {0})
memory_record s id m d = elim (enter s.applied) [
  | err e ↦ (s, err e)
  | ok applied ↦ (
    record s {
      applied = record { poisoned = s.applied.poisoned; value = insert id (m, d) applied };
    },
    ok tt,
  )
]

-- `impl GatewayStateStore for InMemoryGatewayStateStore`.
abbrev pub in_memory : GatewayStateStore InMemory
in_memory = record { desired_manifest = memory_desired; record_applied = memory_record }
