-- ===== src/FsTier/Runs.antt =====
-- patches/tiering-fs-manager.disk-reserve.py, `FileSystemTierManager`: the new tier, and any calls of
-- it, with the turns of its background threads between them.
use deepseek_v4_flash_mi300x.Prelude.{
  ℕ, ◌≡◌, ◌≢◌, refl, Bool, true, false, not, ◌&&◌, ◌||◌, Option, none, some, List, [], ◌∷◌, ltb,
  ◌==◌, if◌then◌else◌,
}
use deepseek_v4_flash_mi300x.Prelude.Map.{Map, has}
use deepseek_v4_flash_mi300x.EvictionGate
use deepseek_v4_flash_mi300x.ShardLeases.{
  Siblings, lookup_begin, lookup_end, release_pending_shards,
}
use deepseek_v4_flash_mi300x.ShardLeases.Leases.{resolve_all}
use deepseek_v4_flash_mi300x.ShardLeases.Runs
use deepseek_v4_flash_mi300x.AsyncLookup
use deepseek_v4_flash_mi300x.AsyncLookup.Workers.{worker_take, worker_finish}
use deepseek_v4_flash_mi300x.FsTier.{Tier, Env, Worker, run_one}
use deepseek_v4_flash_mi300x.FsTier.Jobs.{paths_of, submit_store, submit_load, get_finished_jobs}
use deepseek_v4_flash_mi300x.FsTier.Requests.{
  on_new_request, lookup, cancel_lookup, on_request_finished, on_schedule_end, get_stats,
  take_events,
}
pub mod Balance

pub data TierError : Type 0 where
  target_below_trigger reserve_above_trigger queue_limits : TierError

pub data NewTier : Type 0 where
  created : Tier → NewTier
  value_error : TierError → NewTier

-- the arguments of `__init__`, which are not negative and in whole bytes, and what the scans of the
-- directory find
pub record Config : Type 0 where
  pub min_free : ℕ
  pub trigger : ℕ
  pub target : ℕ
  pub touch_interval : ℕ
  pub check_interval : ℕ
  pub block_size : ℕ
  pub with_events : Bool
  pub max_pending_batches : ℕ
  pub max_keys_per_step : ℕ
  pub max_keys_per_batch : ℕ
  pub num_workers : ℕ
  pub shards : Map ℕ
  pub tombstones : List ℕ

unfoldable pub new_tier : Config → AsyncLookup.Manager → Tier
new_tier c lookups =
    let evicts = not (c.trigger == 0) in
    record {
      min_free_bytes = c.min_free;
      eviction_trigger_bytes = c.trigger;
      eviction_target_bytes = c.target;
      shard_touch_interval = c.touch_interval;
      space_check_interval = c.check_interval;
      block_size = c.block_size;
      last_space_check = 0;
      available_bytes = 0;
      space_available = true;
      failed_jobs = [];
      reserved_store_bytes = 0;
      store_job_reserved_bytes = [];
      is_evicting = false;
      load_failure_delta = 0;
      store_eviction_bypass_delta = 0;
      events = if c.with_events then some [] else none;
      store_job_keys = [];
      store_job_paths = [];
      load_job_paths = [];
      load_job_keys = [];
      orphan_tombstones = if evicts then c.tombstones else [];
      leases = Runs.init c.shards;
      gate = EvictionGate.init;
      lookups = lookups;
      worker =
          if evicts then some (record { pending = []; finished = []; outstanding = 0 }) else none;
    }

-- the last of the checks of `__init__`, which are those of the lookup manager
unfoldable pub with_lookups : Config → AsyncLookup.Created → NewTier
with_lookups c (AsyncLookup.value_error _) = value_error queue_limits
with_lookups c (AsyncLookup.created lookups) = created (new_tier c lookups)

-- `__init__`
unfoldable pub init : Config → NewTier
init c =
    if not (c.trigger == 0) && ltb c.target c.trigger
    then value_error target_below_trigger
    else (if ltb c.trigger c.min_free && ltb 0 c.trigger
        then value_error reserve_above_trigger
        else with_lookups c (
            AsyncLookup.init c.max_pending_batches c.max_keys_per_step c.max_keys_per_batch
              c.num_workers))

-- The scheduler's calls, and the turns of the lookup threads, the eviction thread and their pieces of
-- the lookup: the index is used by the lookup threads too.
pub data Call : Type 0 where
  stores : Env → ℕ → List ℕ → Call
  loads : Env → ℕ → ℕ → List ℕ → Call
  finishes : Env → List (ℕ × Bool) → Call
  opens closes : ℕ → Call
  looks_up : Env → ℕ → ℕ → Call
  cancels : ℕ → Bool → Call
  ends_step : Env → List ℕ → Call
  reports : Env → Call
  takes_events : Call
  deletes : Bool → Call
  takes_batch : Call
  finishes_batch : ℕ → Option (List Bool) → Call
  begins_probe : Siblings → ℕ → List ℕ → Call
  fails_probe : ℕ → List ℕ → Call
  ends_probe : Siblings → ℕ → ℕ → List ℕ → List Bool → List Bool → Call

unfoldable pub step : Tier → Call → Tier
step t (stores e job keys) = (submit_store e job keys t).0
step t (loads e job req keys) = (submit_load e job req keys t).0
step t (finishes e done) = (get_finished_jobs e done t).0
step t (opens req) = on_new_request req t
step t (closes req) = on_request_finished req t
step t (looks_up e key req) = (lookup e key req t).0
step t (cancels req release_pins) = cancel_lookup req release_pins t
step t (ends_step e schedule) = on_schedule_end e schedule t
step t (reports e) = (get_stats e t).0
step t takes_events = (take_events t).0
step t (deletes success) = record t {
  worker = elim t.worker [ none ↦ none | some w ↦ some (run_one success w) ];
}
step t takes_batch = record t { lookups = worker_take t.lookups }
step t (finishes_batch n answer) = record t { lookups = worker_finish n answer t.lookups }
step t (begins_probe e req shards) = record t { leases = (lookup_begin e req shards t.leases).0 }
step t (fails_probe req shards) = record t { leases = release_pending_shards req shards t.leases }
step t (ends_probe e req now shards eligible hits) = record t {
  leases = (lookup_end e req now shards eligible hits t.leases).0;
}

unfoldable pub run : Tier → List Call → Tier
run t [] = t
run t (c ∷ cs) = run (step t c) cs

-- What the callers keep: a job that is submitted is not in flight, and the file mapper puts its keys
-- under the hash shards.
abbrev pub IsNew : Env → ℕ → List ℕ → Tier → Type 0
IsNew e job keys t =
    (resolve_all (paths_of e keys) ≢ none)
    × (has job t.store_job_paths ≡ false)
    × (has job t.load_job_paths ≡ false)

abbrev pub IsAllowed : Tier → Call → Type 0
IsAllowed t (stores e job keys) = IsNew e job keys t
IsAllowed t (loads e job req keys) = IsNew e job keys t
IsAllowed t _ = Unit {0}

abbrev pub AllAllowed : Tier → List Call → Type 0
AllAllowed t [] = Unit {0}
AllAllowed t (c ∷ cs) = IsAllowed t c × AllAllowed (step t c) cs
