-- ===== src/FsTier.antt =====
-- patches/tiering-fs-manager.disk-reserve.py, `FileSystemTierManager`, and `ShardEvictionWorker` of
-- patches/tiering-fs-bounded-lru.py: the disk tier over its gate, its leases and its lookups. A key,
-- a job and a path on the disk are numbers, and so are bytes. `Env` is what the outside says during
-- one call: the clock, the disk, the sibling processes, the thread pool and the file mapper.
use deepseek_v4_flash_mi300x.Prelude.{
  ℕ, zero, suc, ◌+◌, ◌-◌, ◌*◌, Bool, true, false, not, ◌&&◌, ◌||◌, Option, none, some, List, [],
  ◌∷◌, ◌++◌, length, ltb, leb, ◌==◌, if◌then◌else◌,
}
use deepseek_v4_flash_mi300x.Prelude.Map.{Map}
use deepseek_v4_flash_mi300x.EvictionGate.{Gate, World}
use deepseek_v4_flash_mi300x.ShardLeases.{Siblings, Index}
use deepseek_v4_flash_mi300x.ShardLeases.Lru.{Stat}
use deepseek_v4_flash_mi300x.AsyncLookup.{Manager}
pub mod Space
pub mod Eviction
pub mod Jobs
pub mod Requests
pub mod Books
pub mod Runs
pub mod Fence
pub mod Admission

-- `ShardEvictionWorker`: its two queues and the number of deletions that are not collected
pub record Worker : Type 0 where
  pub pending : List ℕ
  pub finished : List (ℕ × Bool)
  pub outstanding : ℕ

pub record Tier : Type 0 where
  pub min_free_bytes : ℕ
  pub eviction_trigger_bytes : ℕ
  pub eviction_target_bytes : ℕ
  pub shard_touch_interval : ℕ
  pub space_check_interval : ℕ
  pub block_size : ℕ
  pub last_space_check : ℕ
  pub available_bytes : ℕ
  pub space_available : Bool
  pub failed_jobs : List ℕ
  pub reserved_store_bytes : ℕ
  pub store_job_reserved_bytes : Map ℕ
  pub is_evicting : Bool  -- `_eviction_active`
  pub load_failure_delta : ℕ
  pub store_eviction_bypass_delta : ℕ
  pub events : Option (List (List ℕ))
  pub store_job_keys : Map (List ℕ)
  pub store_job_paths : Map (List (Option ℕ))
  pub load_job_paths : Map (List (Option ℕ))
  pub load_job_keys : Map (List ℕ)
  pub orphan_tombstones : List ℕ
  pub leases : Index
  pub gate : Gate
  pub lookups : Manager
  pub worker : Option Worker  -- none if eviction is disabled

pub record Env : Type 0 where
  pub now : ℕ
  pub free_bytes : ℕ  -- `f_bavail * f_frsize`
  pub exists : ℕ → Bool  -- of a path
  pub stat : ℕ → Stat  -- of a shard, for `finish_eviction`
  pub path_of : ℕ → Option ℕ  -- `get_file_name` of a key, and the shard of the name
  pub process : ℕ
  pub world : World  -- the gates of the processes
  pub world_later : World  -- and at the second system call of a store
  pub siblings : Siblings
  pub enqueues : Bool  -- false if the thread pool raises

-- `submit` of the worker
unfoldable pub submit : ℕ → Worker → Worker
submit path w = record w { pending = w.pending ++ path ∷ []; outstanding = suc w.outstanding }

-- one turn of `_run`, whose deletion succeeds or raises
unfoldable pub run_one : Bool → Worker → Worker
run_one success w = elim w.pending [
  | [] ↦ w
  | path ∷ pending ↦ record w { pending = pending; finished = w.finished ++ (path, success) ∷ [] }
]

-- `get_finished` of the worker
unfoldable pub get_finished : Worker → Worker × List (ℕ × Bool)
get_finished w =
    (record w { finished = []; outstanding = w.outstanding - length w.finished }, w.finished)
