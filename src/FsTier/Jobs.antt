-- ===== src/FsTier/Jobs.antt =====
-- patches/tiering-fs-manager.disk-reserve.py: `submit_store`, `submit_load` and `get_finished_jobs`.
-- A submission also tells whether it returns; `false` says that it raises.
use deepseek_v4_flash_mi300x.Prelude.{
  ℕ, ◌+◌, ◌-◌, ◌*◌, Bool, true, false, ◌&&◌, Option, none, some, List, [], ◌∷◌, ◌++◌, map, length,
  if◌then◌else◌, get_or, is_some,
}
use deepseek_v4_flash_mi300x.Prelude.Map.{lookup, put, del}
use deepseek_v4_flash_mi300x.EvictionGate.{try_pin_store, release_store}
use deepseek_v4_flash_mi300x.ShardLeases.{Index, release_request_pins}
use deepseek_v4_flash_mi300x.ShardLeases.Leases.{pin_job, release_job}
use deepseek_v4_flash_mi300x.ShardLeases.Lru.{record_store, record_access}
use deepseek_v4_flash_mi300x.AsyncLookup.{invalidate}
use deepseek_v4_flash_mi300x.FsTier.{Tier, Env}
use deepseek_v4_flash_mi300x.FsTier.Space.{has_store_space}
use deepseek_v4_flash_mi300x.FsTier.Eviction.{drain_evictions, maybe_schedule_eviction}

abbrev pub paths_of : Env → List ℕ → List (Option ℕ)
paths_of e keys = map e.path_of keys

abbrev pub fail_job : ℕ → Tier → Tier
fail_job job t = record t { failed_jobs = t.failed_jobs ++ job ∷ [] }

-- a store that is refused after its gate lease
unfoldable pub refuse_store : ℕ → Tier → Tier
refuse_store job t = fail_job job (record t { gate = release_store job t.gate })

-- what an accepted store writes down
unfoldable pub accept_store : ℕ → List ℕ → List (Option ℕ) → ℕ → Tier → Tier
accept_store job keys paths required t = record t {
  store_job_paths = put job paths t.store_job_paths;
  store_job_reserved_bytes = put job required t.store_job_reserved_bytes;
  reserved_store_bytes = t.reserved_store_bytes + required;
  store_job_keys = if is_some t.events then put job keys t.store_job_keys else t.store_job_keys;
}

-- the thread pool raises
unfoldable pub undo_store : ℕ → ℕ → Tier → Tier
undo_store job required t = record t {
  store_job_paths = del job t.store_job_paths;
  store_job_reserved_bytes = del job t.store_job_reserved_bytes;
  reserved_store_bytes = t.reserved_store_bytes - required;
  leases = release_job job t.leases;
  gate = release_store job t.gate;
}

unfoldable pub enqueue_store : Env → ℕ → List ℕ → List (Option ℕ) → ℕ → Tier → Tier × Bool
enqueue_store e job keys paths required t =
    let accepted = accept_store job keys paths required t in
    if e.enqueues then (accepted, true) else (undo_store job required accepted, false)

-- from `pin_job` on
unfoldable pub lease_store : Env → ℕ → List ℕ → List (Option ℕ) → ℕ → Tier → Tier × Bool
lease_store e job keys paths required t =
    let (leases', pinned) = pin_job e.siblings job paths t.leases in
    let t' = record t { leases = leases' } in
    elim pinned [
      | none ↦ (t', false)
      | some ok ↦
          if ok then enqueue_store e job keys paths required t' else (refuse_store job t', true)
    ]

-- with the gate's lease
unfoldable pub reserve_store : Env → ℕ → List ℕ → Tier → Tier × Bool
reserve_store e job keys t =
    let required = length keys * t.block_size in
    let (t', enough) = has_store_space e required t in
    if enough
    then lease_store e job keys (paths_of e keys) required t'
    else (refuse_store job t', true)

unfoldable pub admit_store : Env → ℕ → List ℕ → Tier → Tier × Bool
admit_store e job keys t =
    let (gate', pinned) = try_pin_store e.world e.world_later e.process job t.gate in
    let t' = record t { gate = gate' } in
    if pinned then reserve_store e job keys t' else (
      fail_job job (record t' { store_eviction_bypass_delta = t'.store_eviction_bypass_delta + 1 }),
      true,
    )

-- `submit_store`
unfoldable pub submit_store : Env → ℕ → List ℕ → Tier → Tier × Bool
submit_store e job keys t = admit_store e job keys (maybe_schedule_eviction e (drain_evictions e t))

-- a load whose shards cannot be leased
unfoldable pub refuse_load : ℕ → ℕ → List ℕ → Tier → Tier
refuse_load job req keys t = fail_job job (record t {
  leases = release_request_pins req t.leases;
  lookups = invalidate keys t.lookups;
  load_failure_delta = t.load_failure_delta + 1;
})

-- the job's leases take the place of the request's
unfoldable pub accept_load : ℕ → ℕ → List ℕ → List (Option ℕ) → Tier → Tier
accept_load job req keys paths t = record t {
  leases = release_request_pins req t.leases;
  load_job_paths = put job paths t.load_job_paths;
  load_job_keys = put job keys t.load_job_keys;
}

unfoldable pub undo_load : ℕ → Tier → Tier
undo_load job t = record t {
  load_job_paths = del job t.load_job_paths;
  load_job_keys = del job t.load_job_keys;
  leases = release_job job t.leases;
}

-- `submit_load`
unfoldable pub submit_load : Env → ℕ → ℕ → List ℕ → Tier → Tier × Bool
submit_load e job req keys t =
    let paths = paths_of e keys in
    let (leases', pinned) = pin_job e.siblings job paths t.leases in
    let t' = record t { leases = leases' } in
    let accepted = accept_load job req keys paths t' in
    elim pinned [
      | none ↦ (t', false)
      | some ok ↦
          if ok
          then (if e.enqueues then (accepted, true) else (undo_load job accepted, false))
          else (refuse_load job req keys t', true)
    ]

-- what a finished job gives back
unfoldable pub give_back : ℕ → Tier → Tier
give_back job t = record t {
  store_job_paths = del job t.store_job_paths;
  load_job_paths = del job t.load_job_paths;
  load_job_keys = del job t.load_job_keys;
  store_job_reserved_bytes = del job t.store_job_reserved_bytes;
  reserved_store_bytes = t.reserved_store_bytes - get_or (lookup job t.store_job_reserved_bytes) 0;
  leases = release_job job t.leases;
  gate = release_store job t.gate;
}

abbrev pub is_nonempty {ℓ} : {A : Type ℓ} → List A → Bool
is_nonempty [] = false
is_nonempty (x ∷ xs) = true

-- the job's paths are used, if it succeeded; a path that raises stops the loop
unfoldable pub use_paths : Env → List (Option ℕ) → List (Option ℕ) → Index → Index
use_paths e stored loaded ix = (record_access e.now loaded (record_store e.now stored ix).0).0

unfoldable pub announce : ℕ → Bool → Tier → Tier
announce job success t =
    let keys = get_or (lookup job t.store_job_keys) [] in
    let t' = record t { store_job_keys = del job t.store_job_keys } in
    elim t.events [
      | none ↦ t
      | some events ↦
          if success && is_nonempty keys
          then record t' { events = some (events ++ keys ∷ []) }
          else t'
    ]

-- what the job's outcome does to the recency of its paths and to the answers of its keys
unfoldable pub learn : Env → Bool → List (Option ℕ) → List (Option ℕ) → List ℕ → Tier → Tier
learn e success stored loaded keys t =
    if success
    then record t { leases = use_paths e stored loaded t.leases }
    else (if is_nonempty keys
        then record t {
          lookups = invalidate keys t.lookups;
          load_failure_delta = t.load_failure_delta + 1;
        }
        else t)

unfoldable pub settle : Env → ℕ → Bool → Tier → Tier
settle e job success t =
    let stored = get_or (lookup job t.store_job_paths) [] in
    let loaded = get_or (lookup job t.load_job_paths) [] in
    let keys = get_or (lookup job t.load_job_keys) [] in
    announce job success (learn e success stored loaded keys (give_back job t))

-- the loop over what the thread pool has finished
unfoldable pub settle_all : Env → List (ℕ × Bool) → Tier → Tier
settle_all e [] t = t
settle_all e ((job, success) ∷ done) t = settle_all e done (settle e job success t)

abbrev pub failures : List ℕ → List (ℕ × Bool)
failures [] = []
failures (job ∷ jobs) = (job, false) ∷ failures jobs

-- `get_finished_jobs`, where `done` is what the thread pool has finished
unfoldable pub get_finished_jobs : Env → List (ℕ × Bool) → Tier → Tier × List (ℕ × Bool)
get_finished_jobs e done t =
    let t' = maybe_schedule_eviction e (drain_evictions e t) in
    (settle_all e done (record t' { failed_jobs = [] }), failures t'.failed_jobs ++ done)
