-- ===== src/ShardLeases/Runs.antt =====
-- Any calls of the index in any order, by any threads: each step is one locked block.
use deepseek_v4_flash_mi300x.Prelude.{
  ℕ, ◌≡◌, refl, Bool, true, false, not, ◌||◌, Option, none, some, List, [], ◌∷◌, Bool-cases, inl,
  inr, mem, add, All, arith,
}
use deepseek_v4_flash_mi300x.Prelude.Map.{Map, lookup, has, put}
use deepseek_v4_flash_mi300x.Prelude.Totals.{total}
use deepseek_v4_flash_mi300x.ShardLeases.{
  Siblings, count, Index, pins_of, release_pending_shards, begin_lookup, lookup_begin, lookup_end,
  release_request_pins,
}
use deepseek_v4_flash_mi300x.ShardLeases.Leases.{
  resolve_cached_lookup, open_request, cancel_lookup, release_request, pin_job, release_job,
}
use deepseek_v4_flash_mi300x.ShardLeases.Lru.{
  use_shard, for_paths, touch_shard, access_shard, touch_pinned, touch, record_store, record_access,
  begin_oldest_eviction, Stat, finish_eviction, flush_touches,
}
use deepseek_v4_flash_mi300x.ShardLeases.Balance.{
  Inv, holders, release_request_pins-Inv, release_pending_shards-Inv,
}
use deepseek_v4_flash_mi300x.ShardLeases.Balance.Lookups.{
  IsOpen, begin_lookup-Inv, lookup_begin-Inv,
}
use deepseek_v4_flash_mi300x.ShardLeases.Balance.Pins.{lookup_end-Inv, resolve_cached_lookup-Inv}
use deepseek_v4_flash_mi300x.ShardLeases.Balance.Requests.{
  open_request-Inv, cancel_lookup-Inv, release_request-Inv,
}
use deepseek_v4_flash_mi300x.ShardLeases.Balance.Jobs.{pin_job-Inv, release_job-Inv}
use deepseek_v4_flash_mi300x.ShardLeases.Balance.Evictions.{
  begin_oldest_eviction-Inv, finish_eviction-Inv, recency-Inv,
}

-- `__init__`: the shards that the scan of the directory finds, with their times
unfoldable pub init : Map ℕ → Index
init last_used = record {
  locks = record { shared_lock_fds = []; shared_lock_counts = []; eviction_lock_fds = [] };
  last_used = last_used;
  request_shards = [];
  pending_lookup_shards = [];
  job_shards = [];
  evicting = [];
  dirty_shards = [];
  last_persisted = [];
  closed_requests = [];
  lookup_cancelled_requests = [];
}

pub data Call : Type 0 where
  queues_lookup : Siblings → ℕ → ℕ → Call
  starts_lookup : Siblings → ℕ → List ℕ → Call
  ends_lookup : Siblings → ℕ → ℕ → List ℕ → List Bool → List Bool → Call
  fails_lookup : ℕ → List ℕ → Call
  resolves : Siblings → ℕ → ℕ → ℕ → Bool → Call
  opens releases_pins releases : ℕ → Call
  cancels : ℕ → Bool → Call
  pins_job : Siblings → ℕ → List (Option ℕ) → Call
  frees_job : ℕ → Call
  evicts : Siblings → Call
  finishes : ℕ → Bool → Stat → Call
  touches : ℕ → ℕ → List (Option ℕ) → Call
  stores accesses : ℕ → List (Option ℕ) → Call
  flushes : ℕ → ℕ → ℕ → Call

unfoldable pub step : Index → Call → Index
step ix (queues_lookup e req shard) = begin_lookup e req shard ix
step ix (starts_lookup e req shards) = (lookup_begin e req shards ix).0
step ix (ends_lookup e req now shards eligible hits) =
    (lookup_end e req now shards eligible hits ix).0
step ix (fails_lookup req shards) = release_pending_shards req shards ix
step ix (resolves e req now shard hit) = (resolve_cached_lookup e req now shard hit ix).0
step ix (opens req) = open_request req ix
step ix (releases_pins req) = release_request_pins req ix
step ix (releases req) = release_request req ix
step ix (cancels req release_pins) = cancel_lookup req release_pins ix
step ix (pins_job e job paths) = (pin_job e job paths ix).0
step ix (frees_job job) = release_job job ix
step ix (evicts e) = (begin_oldest_eviction e ix).0
step ix (finishes shard success stat) = finish_eviction shard success stat ix
step ix (touches now req paths) = (touch now req paths ix).0
step ix (stores now paths) = (record_store now paths ix).0
step ix (accesses now paths) = (record_access now paths ix).0
step ix (flushes now minimum_age max_updates) = (flush_touches now minimum_age max_updates ix).0

-- What the callers keep: a job's number is new, and (which the code does not ensure) no shard of a
-- lookup is taken for eviction between the lookup's two blocks.
abbrev pub IsAllowed : Index → Call → Type 0
IsAllowed ix (ends_lookup e req now shards eligible hits) = All (IsOpen e ix) shards
IsAllowed ix (pins_job e job paths) = lookup job ix.job_shards ≡ none
IsAllowed ix _ = Unit {0}

unfoldable pub run : Index → List Call → Index
run ix [] = ix
run ix (c ∷ cs) = run (step ix c) cs

abbrev pub AllAllowed : Index → List Call → Type 0
AllAllowed ix [] = Unit {0}
AllAllowed ix (c ∷ cs) = IsAllowed ix c × AllAllowed (step ix c) cs

pub init-Inv : (last_used : Map ℕ) → Inv (init last_used)
unfolding init total lookup mem
init-Inv last_used = record {
  balanced = λ s. refl;
  locks_ok = record { counted = λ s. refl; alone = λ s h. refl };
  evicting_locked = λ s. refl;
  request_dict = tt;
  pending_dict = tt;
  job_dict = tt;
  pending_dicts = tt;
}

access_shard-Inv : (now s : ℕ) (ix : Index) → Inv ix → Inv (access_shard now s ix)
access_shard-Inv now s ix v = elim (Bool-cases (not (has s ix.last_used) || mem s ix.evicting)) [
  | inl skip ↦ rw skip v
  | inr use_it ↦
      rw use_it
        (recency-Inv (put s now ix.last_used) (add s ix.dirty_shards) ix.last_persisted ix v)
]

touch_shard-Inv :
    (now : ℕ) (pinned : List ℕ) (s : ℕ) (ix : Index) → Inv ix → Inv (touch_shard now pinned s ix)
touch_shard-Inv now pinned s ix v = elim (Bool-cases (not (mem s pinned) || mem s ix.evicting)) [
  | inl skip ↦ rw skip v
  | inr use_it ↦
      rw use_it
        (recency-Inv (put s now ix.last_used) (add s ix.dirty_shards) ix.last_persisted ix v)
]

for_paths-Inv :
    (f : ℕ → Index → Index)
    → ((s : ℕ) (ix : Index) → Inv ix → Inv (f s ix))
    → (paths : List (Option ℕ)) (ix : Index) → Inv ix
    → Inv (for_paths f paths ix).0
for_paths-Inv f keep [] ix v = v
for_paths-Inv f keep (none ∷ paths) ix v = v
for_paths-Inv f keep (some s ∷ paths) ix v = for_paths-Inv f keep paths (f s ix) (keep s ix v)

touch_pinned-Inv :
    (now : ℕ) (held : List ℕ) (paths : List (Option ℕ)) (ix : Index)
    → Inv ix
    → Inv (touch_pinned now held paths ix).0
unfolding touch_pinned
touch_pinned-Inv now [] paths ix v = v
touch_pinned-Inv now (s ∷ held) paths ix v =
    for_paths-Inv (touch_shard now (s ∷ held)) (touch_shard-Inv now (s ∷ held)) paths ix v

touch-Inv :
    (now req : ℕ) (paths : List (Option ℕ)) (ix : Index) → Inv ix → Inv (touch now req paths ix).0
unfolding touch
touch-Inv now req paths ix v = elim (Bool-cases (mem req ix.closed_requests)) [
  | inl closed ↦ rw closed v
  | inr live ↦ rw live (touch_pinned-Inv now (pins_of req ix) paths ix v)
]

-- One step keeps the balance of leases and locks.
pub step-Inv : (ix : Index) (c : Call) → Inv ix → IsAllowed ix c → Inv (step ix c)
unfolding step record_store record_access flush_touches
step-Inv ix (queues_lookup e req shard) v a = begin_lookup-Inv e req shard ix v
step-Inv ix (starts_lookup e req shards) v a = lookup_begin-Inv e req shards ix v
step-Inv ix (ends_lookup e req now shards eligible hits) v a =
    lookup_end-Inv e req now shards eligible hits ix v a
step-Inv ix (fails_lookup req shards) v a = release_pending_shards-Inv req shards ix v
step-Inv ix (resolves e req now shard hit) v a = resolve_cached_lookup-Inv e req now shard hit ix v
step-Inv ix (opens req) v a = open_request-Inv req ix v
step-Inv ix (releases_pins req) v a = release_request_pins-Inv req ix v
step-Inv ix (releases req) v a = release_request-Inv req ix v
step-Inv ix (cancels req release_pins) v a = cancel_lookup-Inv req release_pins ix v
step-Inv ix (pins_job e job paths) v a = pin_job-Inv e job paths ix v a
step-Inv ix (frees_job job) v a = release_job-Inv job ix v
step-Inv ix (evicts e) v a = begin_oldest_eviction-Inv e ix v
step-Inv ix (finishes shard success stat) v a = finish_eviction-Inv shard success stat ix v
step-Inv ix (touches now req paths) v a = touch-Inv now req paths ix v
step-Inv ix (stores now paths) v a =
    for_paths-Inv (use_shard now)
      (λ s ix v.
        recency-Inv (put s now ix.last_used) (add s ix.dirty_shards) ix.last_persisted ix v)
      paths ix v
step-Inv ix (accesses now paths) v a =
    for_paths-Inv (access_shard now) (access_shard-Inv now) paths ix v
step-Inv ix (flushes now minimum_age max_updates) v a = recency-Inv _ _ _ ix v

run-Inv : (ix : Index) (cs : List Call) → Inv ix → AllAllowed ix cs → Inv (run ix cs)
unfolding run
run-Inv ix [] v a = v
run-Inv ix (c ∷ cs) v a = run-Inv (step ix c) cs (step-Inv ix c v a.0) a.1

-- From a new index, after any sequence of calls in which each job is pinned under a number that
-- is not in use, and in which no shard of a lookup is locked for eviction, here or by a
-- sibling, when the lookup's last block runs: each shard's lock is counted once for each lease
-- of a request, a pending lookup or a job that names the shard.
pub run_balanced :
    (last_used : Map ℕ) (cs : List Call) (s : ℕ)
    → AllAllowed (init last_used) cs
    → count s (run (init last_used) cs).locks ≡ holders s (run (init last_used) cs)
run_balanced last_used cs s a = (run-Inv (init last_used) cs (init-Inv last_used) a).balanced s

-- From a new index, after any sequence of calls in which each job is pinned under a number that
-- is not in use, and in which no shard of a lookup is locked for eviction, here or by a
-- sibling, when the lookup's last block runs: a shard that is being evicted has no lease, and
-- its lock is held exclusively and not shared.
pub run_evicting_unleased :
    (last_used : Map ℕ) (cs : List Call) (s : ℕ)
    → AllAllowed (init last_used) cs
    → mem s (run (init last_used) cs).evicting ≡ true
    → let ix = run (init last_used) cs in
      (holders s ix ≡ 0)
      × (mem s ix.locks.eviction_lock_fds ≡ true)
      × (mem s ix.locks.shared_lock_fds ≡ false)
run_evicting_unleased last_used cs s a m =
    let v = run-Inv (init last_used) cs (init-Inv last_used) a in
    ground (arith, v.balanced s, v.evicting_locked s, v.locks_ok.alone s, v.locks_ok.counted s)
