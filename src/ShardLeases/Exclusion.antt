-- ===== src/ShardLeases/Exclusion.antt =====
-- Leases against eviction: what a call answers when the shard is, or comes to be, locked for eviction.
use deepseek_v4_flash_mi300x.Prelude.{
  ℕ, ◌++◌, ◌≤◌, ◌≡◌, Bool, true, false, some, List, [], ◌∷◌, mem, add, mem-add, arith,
}
use deepseek_v4_flash_mi300x.Prelude.Map.{Map, lookup, lookup-put, lookup-set_default, set_default}
use deepseek_v4_flash_mi300x.Prelude.Totals.{worth-le-total, occurrences, occurrences-pos}
use deepseek_v4_flash_mi300x.ShardLeases.{
  Siblings, Locks, count, Index, acquire_shared, drop_lock, drop_pending, release_pending_shards,
  is_fenced, pins_of, pin_hit, pin_hits, lookup_end,
}
use deepseek_v4_flash_mi300x.ShardLeases.Leases.{
  pin_cached, resolve_cached_lookup, pin_shards, pin_job_shards,
}
use deepseek_v4_flash_mi300x.ShardLeases.Counts.{weight, count-release_shared}
use deepseek_v4_flash_mi300x.ShardLeases.Balance.{Inv}
use deepseek_v4_flash_mi300x.ShardLeases.Balance.Pins.{resolve_cached_lookup-Inv}

-- a job that needs a shard in eviction
pin_shards_evicting :
    (e : Siblings) (ev acquired shards : List ℕ) (s : ℕ) (l : Locks)
    → mem s ev ≡ true
    → mem s shards ≡ true
    → (pin_shards e ev acquired shards l).1 ≡ false
unfolding pin_shards mem
pin_shards_evicting e ev acquired [] s l h k = absurd (ground arith)
pin_shards_evicting e ev acquired (x ∷ xs) s l h k =
    ground (arith, pin_shards_evicting e ev (acquired ++ x ∷ []) xs s (acquire_shared e x l).0)

-- A job one of whose shards is being evicted is refused, and is not recorded.
pub pin_job_evicting :
    (e : Siblings) (job s : ℕ) (shards : List ℕ) (ix : Index)
    → mem s ix.evicting ≡ true
    → mem s shards ≡ true
    → ((pin_job_shards e job shards ix).1 ≡ false)
      × ((pin_job_shards e job shards ix).0.job_shards ≡ ix.job_shards)
unfolding pin_job_shards
pin_job_evicting e job s shards ix h k =
    ground (arith, pin_shards_evicting e ix.evicting [] shards s ix.locks h k)

-- The count of a shard after the last block of a lookup has given up its pending lease.
count_dropped :
    (req s : ℕ) (ix : Index) (p : Map ℕ)
    → lookup req ix.pending_lookup_shards ≡ some p
    → weight s p ≡ 1
    → count s ix.locks ≡ 1
    → count s (release_pending_shards req (s ∷ []) ix).locks ≡ 0
unfolding release_pending_shards drop_pending drop_lock
count_dropped req s ix p here one alone = ground (arith, count-release_shared s s ix.locks)

dropped_frame :
    (req s : ℕ) (ix : Index)
    → let ix' = release_pending_shards req (s ∷ []) ix in
      (pins_of req ix' ≡ pins_of req ix) × (is_fenced req ix' ≡ is_fenced req ix)
unfolding release_pending_shards
dropped_frame req s ix = ground arith

-- The last block of `lookup_and_pin` gives up the pending lease before it takes the request's.
-- For a live request that does not pin the shard yet, whose pending lease is the only lease of
-- the shard, with a sibling that takes the shard's lock exclusively as soon as it is free: it
-- answers a hit and records the pin, and no lock of the shard is held.
pub hit_without_lock :
    (e : Siblings) (req now s : ℕ) (ix : Index) (p : Map ℕ)
    → is_fenced req ix ≡ false
    → mem s (pins_of req ix) ≡ false
    → lookup req ix.pending_lookup_shards ≡ some p
    → weight s p ≡ 1
    → count s ix.locks ≡ 1
    → e.exclude s ≡ true
    → let (ix', answer) = lookup_end e req now (s ∷ []) (true ∷ []) (true ∷ []) ix in
      (answer ≡ true ∷ []) × (mem s (pins_of req ix') ≡ true) × (count s ix'.locks ≡ 0)
unfolding lookup_end pin_hits pin_hit acquire_shared
hit_without_lock e req now s ix p live new here one alone taken =
    let ix' = release_pending_shards req (s ∷ []) ix in
    ground (
      arith,
      count_dropped req s ix p here one alone,
      dropped_frame req s ix,
      lookup-set_default req req [] ix'.request_shards,
      lookup-put req req (add s (pins_of req ix')) (set_default req [] ix'.request_shards),
      mem-add s s (pins_of req ix'),
    )

pin_cached_pinned :
    (e : Siblings) (req s : ℕ) (hit : Bool) (ix : Index)
    → (pin_cached e req s hit ix).1 ≡ true
    → (hit ≡ true)
      × (is_fenced req ix ≡ false)
      × (mem s ix.evicting ≡ false)
      × (mem s (pins_of req (pin_cached e req s hit ix).0) ≡ true)
unfolding pin_cached
pin_cached_pinned e req s hit ix h =
    let opened = record ix { request_shards = set_default req [] ix.request_shards } in
    ground (
      arith,
      lookup-put req req (add s (pins_of req opened)) opened.request_shards,
      mem-add s s (pins_of req opened),
    )

valid_hit :
    (e : Siblings) (req now s : ℕ) (hit : Bool) (ix : Index)
    → (resolve_cached_lookup e req now s hit ix).1 ≡ true
    → (pin_cached e req s hit ix).1 ≡ true
unfolding resolve_cached_lookup
valid_hit e req now s hit ix h = ground arith

pins_kept :
    (e : Siblings) (req now s : ℕ) (hit : Bool) (ix : Index)
    → (resolve_cached_lookup e req now s hit ix).1 ≡ true
    → mem s (pins_of req (pin_cached e req s hit ix).0) ≡ true
    → mem s (pins_of req (resolve_cached_lookup e req now s hit ix).0) ≡ true
unfolding resolve_cached_lookup
pins_kept e req now s hit ix h k = ground (arith, dropped_frame req s (pin_cached e req s hit ix).0)

pinned_locked :
    (req s : ℕ) (ix : Index) → Inv ix → mem s (pins_of req ix) ≡ true → 1 ≤ count s ix.locks
unfolding occurrences
pinned_locked req s ix v h = ground (
  arith,
  v.balanced s,
  worth-le-total (occurrences s) req ix.request_shards,
  occurrences-pos s (pins_of req ix),
)

-- In an index whose locks and leases agree, if `resolve_cached_lookup` answers a hit, then a
-- hit was passed in, the request is live, this process does not evict the shard, and afterwards
-- the request pins the shard and the shard's lock is held.
pub cached_hit_locked :
    (e : Siblings) (req now s : ℕ) (hit : Bool) (ix : Index)
    → Inv ix
    → (resolve_cached_lookup e req now s hit ix).1 ≡ true
    → let ix' = (resolve_cached_lookup e req now s hit ix).0 in
      (hit ≡ true)
      × (is_fenced req ix ≡ false)
      × (mem s ix.evicting ≡ false)
      × (mem s (pins_of req ix') ≡ true)
      × (1 ≤ count s ix'.locks)
cached_hit_locked e req now s hit ix v h =
    let (asked, live, kept, pinned) =
      pin_cached_pinned e req s hit ix (valid_hit e req now s hit ix h) in
    let ix' = (resolve_cached_lookup e req now s hit ix).0 in
    let v' = resolve_cached_lookup-Inv e req now s hit ix v in
    let held = pins_kept e req now s hit ix h pinned in
    (asked, live, kept, held, pinned_locked req s ix' v' held)
