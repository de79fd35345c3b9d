-- ===== src/Tests/ShardLeases.antt =====
-- Runs of the shard leases of one process (patches/tiering-fs-bounded-lru.py).
use deepseek_v4_flash_mi300x.Prelude.{
  ℕ, ◌≤◌, ◌≡◌, refl, true, false, some, List, [], ◌∷◌, mem, add, ◌||◌,
}
use deepseek_v4_flash_mi300x.Prelude.Map.{Map, lookup, put, set_default}
use deepseek_v4_flash_mi300x.ShardLeases.{
  Siblings, Index, count, acquire_shared, acquire_exclusive, lookup_begin, lookup_end,
  lease_candidate, lease_candidates, count_pending, pin_hits, pin_hit, release_pending_shards,
  pins_of,
}
use deepseek_v4_flash_mi300x.ShardLeases.Leases.{resolve_cached_lookup, pin_cached}
use deepseek_v4_flash_mi300x.ShardLeases.Lru.{
  is_pinned, in_values, in_pending, insert_by_age, candidates, first_lockable,
  begin_oldest_eviction,
}
use deepseek_v4_flash_mi300x.ShardLeases.Balance.{holders}
use deepseek_v4_flash_mi300x.ShardLeases.Runs.{
  init, Call, starts_lookup, ends_lookup, pins_job, frees_job, evicts, step, run, init-Inv,
  run_balanced, run_evicting_unleased,
}
use deepseek_v4_flash_mi300x.ShardLeases.Lru.Order.{oldest_evicted, passed_over, none_evictable}
use deepseek_v4_flash_mi300x.ShardLeases.Exclusion.{hit_without_lock, cached_hit_locked}

-- no other process, and one that evicts shard 3
abbrev alone : Siblings
alone = record { exclude = λ s. false; hold = λ s. false }

abbrev taken : Siblings
taken = record { exclude = λ s. true; hold = λ s. true }

-- shards 3 and 4, last used at 10 and 20
abbrev shards : Map ℕ
shards = (3, 10) ∷ (4, 20) ∷ []

-- a lookup of request 1 in shard 3, a job that reads shard 4, and an attempt to evict
abbrev calls : List Call
calls =
    starts_lookup alone 1 (3 ∷ [])
    ∷ ends_lookup alone 1 30 (3 ∷ []) (true ∷ []) (true ∷ [])
    ∷ pins_job alone 7 (some 4 ∷ [])
    ∷ frees_job 7
    ∷ evicts alone
    ∷ []

run_balanced_example : count 3 (run (init shards) calls).locks ≡ holders 3 (run (init shards) calls)
unfolding init step lookup_begin lease_candidates lease_candidate acquire_shared mem lookup
    lookup_end pin_hits pin_hit set_default release_pending_shards put
run_balanced_example =
    run_balanced shards calls 3 (tt, (((refl, refl), tt), (refl, (tt, (tt, tt)))))

-- request 1 holds a lease of shard 3, so shard 4 is taken for eviction
abbrev evicting_calls : List Call
evicting_calls = starts_lookup alone 1 (3 ∷ []) ∷ evicts alone ∷ []

run_evicting_unleased_example :
    (holders 4 (run (init shards) evicting_calls) ≡ 0)
    × (mem 4 (run (init shards) evicting_calls).locks.eviction_lock_fds ≡ true)
    × (mem 4 (run (init shards) evicting_calls).locks.shared_lock_fds ≡ false)
unfolding init step lookup_begin lease_candidates lease_candidate acquire_shared count_pending mem
    lookup put run begin_oldest_eviction first_lockable candidates insert_by_age is_pinned in_values
    in_pending acquire_exclusive add
run_evicting_unleased_example = run_evicting_unleased shards evicting_calls 4 (tt, (tt, tt)) refl

oldest_evicted_example :
    (used : ℕ) × (lookup 3 shards ≡ some used)
    × (holders 3 (init shards) ≡ 0)
    × (mem 3 [] ≡ false)
    × (passed_over alone (init shards) (used, 3) 4 (lookup 4 shards) ≡ true)
unfolding init begin_oldest_eviction first_lockable candidates insert_by_age is_pinned in_values
    in_pending acquire_exclusive mem lookup
oldest_evicted_example =
    oldest_evicted alone (init shards) 3 4 (init-Inv shards) (refl, (refl, tt)) refl

none_evictable_example :
    is_pinned 4 (init shards) || (mem 4 (init shards).evicting || taken.hold 4) ≡ true
unfolding init begin_oldest_eviction first_lockable candidates insert_by_age is_pinned in_values
    in_pending acquire_exclusive mem lookup
none_evictable_example = none_evictable taken (init shards) 4 20 (init-Inv shards) refl refl

-- shard 3 is being evicted
abbrev evicting_three : Index
evicting_three = record (init shards) { evicting = 3 ∷ [] }

-- request 1 has a pending lookup in shard 3, which holds the shard's only lease
abbrev looking : Index
looking = step (init shards) (starts_lookup alone 1 (3 ∷ []))

hit_without_lock_example :
    ((lookup_end taken 1 30 (3 ∷ []) (true ∷ []) (true ∷ []) looking).1 ≡ true ∷ [])
    × (mem 3 (pins_of 1 (lookup_end taken 1 30 (3 ∷ []) (true ∷ []) (true ∷ []) looking).0) ≡ true)
    × (count 3 (lookup_end taken 1 30 (3 ∷ []) (true ∷ []) (true ∷ []) looking).0.locks ≡ 0)
unfolding init step lookup_begin lease_candidates lease_candidate acquire_shared count_pending mem
    lookup put
hit_without_lock_example =
    hit_without_lock taken 1 30 3 looking ((3, 1) ∷ []) refl refl refl refl refl refl

cached_hit_locked_example :
    (true ≡ true)
    × (mem 1 [] || mem 1 [] ≡ false)
    × (mem 3 [] ≡ false)
    × (mem 3 (pins_of 1 (resolve_cached_lookup alone 1 30 3 true (init shards)).0) ≡ true)
    × (1 ≤ count 3 (resolve_cached_lookup alone 1 30 3 true (init shards)).0.locks)
unfolding init resolve_cached_lookup pin_cached acquire_shared mem lookup set_default put
cached_hit_locked_example = cached_hit_locked alone 1 30 3 true (init shards) (init-Inv shards) refl
