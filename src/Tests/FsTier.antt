-- ===== src/Tests/FsTier.antt =====
-- Runs of the disk tier (patches/tiering-fs-manager.disk-reserve.py).
use deepseek_v4_flash_mi300x.Prelude.{
  ℕ, ◌+◌, ◌≤◌, ◌≡◌, ◌≢◌, inl, refl, Bool, true, false, not, ◌&&◌, ◌||◌, none, some, List, [], ◌∷◌,
  ◌++◌, if◌then◌else◌, mem, add, arith,
}
use deepseek_v4_flash_mi300x.Prelude.Map
use deepseek_v4_flash_mi300x.Prelude.Map.{has, put, del}
use deepseek_v4_flash_mi300x.Prelude.Totals.{total}
use deepseek_v4_flash_mi300x.EvictionGate
use deepseek_v4_flash_mi300x.EvictionGate.{
  Gate, Action, starts, begins, fences, any_other, try_begin_eviction, try_fence_writes, pin_probe,
  pin_write, pin_done, try_pin_store, release_store,
}
use deepseek_v4_flash_mi300x.ShardLeases.{acquire_shared, acquire_exclusive}
use deepseek_v4_flash_mi300x.ShardLeases.Leases.{resolve_all, pin_shards, pin_job_shards, pin_job}
use deepseek_v4_flash_mi300x.ShardLeases.Lru.{
  no_directory, is_pinned, in_values, in_pending, insert_by_age, candidates, first_lockable,
  begin_oldest_eviction, flush_touches,
}
use deepseek_v4_flash_mi300x.ShardLeases.Runs
use deepseek_v4_flash_mi300x.AsyncLookup
use deepseek_v4_flash_mi300x.FsTier.{Tier, Env, Worker, submit, get_finished}
use deepseek_v4_flash_mi300x.FsTier.Space.{get_available_bytes, has_store_space}
use deepseek_v4_flash_mi300x.FsTier.Eviction.{
  collect, drain_evictions, take_ownership, skip_missing, evict_oldest, evict_next, schedule_next,
  maybe_schedule_eviction,
}
use deepseek_v4_flash_mi300x.FsTier.Jobs.{
  paths_of, accept_store, enqueue_store, lease_store, reserve_store, admit_store, submit_store,
}
use deepseek_v4_flash_mi300x.FsTier.Books.{id}
use deepseek_v4_flash_mi300x.FsTier.Requests.{on_schedule_end}
use deepseek_v4_flash_mi300x.FsTier.Runs.{
  Config, init, with_lookups, new_tier, Call, stores, finishes, ends_step, step, run,
}
use deepseek_v4_flash_mi300x.FsTier.Runs.Balance.{run_books}
use deepseek_v4_flash_mi300x.FsTier.Fence.Exclusion.{deletion_excludes_stores}
use deepseek_v4_flash_mi300x.FsTier.Admission.{submit_store_fate, accepted_store_fits}

-- eviction from 100 bytes on until 200 are free, a reserve of 10, blocks of 4, one shard
abbrev config : Config
config = record {
  min_free = 10;
  trigger = 100;
  target = 200;
  touch_interval = 30;
  check_interval = 1;
  block_size = 4;
  with_events = false;
  max_pending_batches = 8;
  max_keys_per_step = 16;
  max_keys_per_batch = 4;
  num_workers = 1;
  shards = (3, 10) ∷ [];
  tombstones = [];
}

-- one process, and every key in shard 3
abbrev env : ℕ → Env
env free = record {
  now = 50;
  free_bytes = free;
  exists = λ p. true;
  stat = λ s. no_directory;
  path_of = λ k. some 3;
  process = 1;
  world = [];
  world_later = [];
  siblings = record { exclude = λ s. false; hold = λ s. false };
  enqueues = true;
}

abbrev lookups : AsyncLookup.Manager
lookups = record {
  max_pending_batches = 8;
  max_keys_per_step = 16;
  max_keys_per_batch = 4;
  dropped_keys_delta = 0;
  cancelled_keys_delta = 0;
  lookup_state = [];
  req_keys = [];
  lookup_batch = [];
  lookup_queue = [];
  pending_results = [];
  need_to_drain = false;
  running = [];
  next_token = 0;
  cleared = [];
}

abbrev tier : Tier
tier = new_tier config lookups

one_path : resolve_all (paths_of (env 500) (1 ∷ [])) ≢ none
unfolding resolve_all
one_path q = absurd (ground arith)

abbrev storing : List Call
storing = stores (env 500) 7 (1 ∷ []) ∷ finishes (env 500) ((7, true) ∷ []) ∷ []

run_books_example :
    ((run tier storing).reserved_store_bytes ≡ total id (run tier storing).store_job_reserved_bytes)
    × ((j : ℕ)
        → (has j (run tier storing).store_job_reserved_bytes
            ≡ has j (run tier storing).store_job_paths)
          × (mem j (run tier storing).gate.store_jobs ≡ has j (run tier storing).store_job_paths)
          × (has j (run tier storing).leases.job_shards ≡ (
              has j (run tier storing).store_job_paths || has j (run tier storing).load_job_paths)))
unfolding init with_lookups AsyncLookup.init new_tier Map.lookup
run_books_example = run_books config storing refl ((one_path, refl, refl), (tt, tt))

-- little space: the step's end takes ownership and the fence, and submits shard 3
abbrev evicting : List Call
evicting = ends_step (env 50) [] ∷ []

abbrev busy : Worker
busy = record { pending = 3 ∷ []; finished = []; outstanding = 1 }

abbrev fenced_world : List Action
fenced_world = starts 1 ∷ starts 2 ∷ begins 1 ∷ fences 1 ∷ []

deletion_excludes_stores_example : EvictionGate.init.store_jobs ≡ []
unfolding init with_lookups AsyncLookup.init new_tier run step on_schedule_end flush_touches
    drain_evictions collect get_finished maybe_schedule_eviction get_available_bytes take_ownership
    try_begin_eviction any_other schedule_next skip_missing evict_next evict_oldest try_fence_writes
    begin_oldest_eviction first_lockable candidates insert_by_age is_pinned in_values in_pending
    acquire_exclusive submit mem Map.lookup put Runs.init EvictionGate.init EvictionGate.run
    EvictionGate.step
deletion_excludes_stores_example =
    deletion_excludes_stores config evicting fenced_world 1 2 EvictionGate.init busy refl refl
      (inl (omega arith)) refl refl

submit_store_fate_example :
    (fails : Bool) × ((submit_store (env 500) 7 (1 ∷ []) tier).0.failed_jobs
      ≡ (if fails then [] ++ 7 ∷ [] else []))
    × (has 7 (submit_store (env 500) 7 (1 ∷ []) tier).0.store_job_paths
        ≡ ((submit_store (env 500) 7 (1 ∷ []) tier).1 && not fails))
unfolding new_tier Map.lookup
submit_store_fate_example = submit_store_fate (env 500) 7 (1 ∷ []) tier refl

ten : tier.min_free_bytes ≢ 0
unfolding new_tier
ten = ground arith

accepted_store_fits_example :
    (submit_store (env 500) 7 (1 ∷ []) tier).0.min_free_bytes
      + (submit_store (env 500) 7 (1 ∷ []) tier).0.reserved_store_bytes
    ≤ (submit_store (env 500) 7 (1 ∷ []) tier).0.available_bytes
unfolding new_tier Map.lookup submit_store drain_evictions collect get_finished
    maybe_schedule_eviction get_available_bytes take_ownership try_begin_eviction any_other
    schedule_next admit_store try_pin_store pin_probe pin_write pin_done reserve_store
    has_store_space lease_store pin_job resolve_all pin_job_shards pin_shards acquire_shared mem put
    add enqueue_store accept_store Runs.init EvictionGate.init
accepted_store_fits_example = accepted_store_fits (env 500) 7 (1 ∷ []) tier refl ten refl
