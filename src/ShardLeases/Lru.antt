-- ===== src/ShardLeases/Lru.antt =====
-- patches/tiering-fs-bounded-lru.py, `ShardLeaseIndex`: recency, and the choice of a shard to evict.
use deepseek_v4_flash_mi300x.Prelude.{
  ℕ, zero, suc, ◌+◌, ◌-◌, Bool, true, false, not, ◌&&◌, ◌||◌, Option, none, some, List, [], ◌∷◌,
  ◌++◌, take, ltb, leb, ◌==◌, if◌then◌else◌, get_or, mem, add, discard,
}
use deepseek_v4_flash_mi300x.Prelude.Map.{Map, lookup, has, put, del}
use deepseek_v4_flash_mi300x.ShardLeases.{
  Siblings, Locks, Index, acquire_exclusive, release_exclusive, pins_of,
}
pub mod Order

abbrev pub use_shard : ℕ → ℕ → Index → Index
use_shard now shard ix = record ix {
  last_used = put shard now ix.last_used;
  dirty_shards = add shard ix.dirty_shards;
}

-- The loops of `touch`, `record_store` and `record_access`: a path that does not resolve raises, and
-- what the earlier ones did stays. `false` says that it raised.
abbrev pub for_paths : (ℕ → Index → Index) → List (Option ℕ) → Index → Index × Bool
for_paths f [] ix = (ix, true)
for_paths f (none ∷ paths) ix = (ix, false)
for_paths f (some shard ∷ paths) ix = for_paths f paths (f shard ix)

abbrev pub touch_shard : ℕ → List ℕ → ℕ → Index → Index
touch_shard now pinned shard ix =
    if not (mem shard pinned) || mem shard ix.evicting then ix else use_shard now shard ix

-- the loop of `touch`, which an unpinned request does not reach
unfoldable pub touch_pinned : ℕ → List ℕ → List (Option ℕ) → Index → Index × Bool
touch_pinned now [] paths ix = (ix, true)
touch_pinned now (shard ∷ shards) paths ix = for_paths (touch_shard now (shard ∷ shards)) paths ix

-- `touch`
unfoldable pub touch : ℕ → ℕ → List (Option ℕ) → Index → Index × Bool
touch now req paths ix =
    if mem req ix.closed_requests then (ix, true) else touch_pinned now (pins_of req ix) paths ix

-- `record_store`
unfoldable pub record_store : ℕ → List (Option ℕ) → Index → Index × Bool
record_store now paths ix = for_paths (use_shard now) paths ix

abbrev pub access_shard : ℕ → ℕ → Index → Index
access_shard now shard ix =
    if not (has shard ix.last_used) || mem shard ix.evicting then ix else use_shard now shard ix

-- `record_access`
unfoldable pub record_access : ℕ → List (Option ℕ) → Index → Index × Bool
record_access now paths ix = for_paths (access_shard now) paths ix

-- the shards that `begin_oldest_eviction` leaves alone
unfoldable pub in_values : ℕ → Map (List ℕ) → Bool
in_values shard [] = false
in_values shard ((_, shards) ∷ m) = mem shard shards || in_values shard m

unfoldable pub in_pending : ℕ → Map (Map ℕ) → Bool
in_pending shard [] = false
in_pending shard ((_, pending) ∷ m) = has shard pending || in_pending shard m

unfoldable pub is_pinned : ℕ → Index → Bool
is_pinned shard ix =
    in_values shard ix.request_shards
    || (in_values shard ix.job_shards || in_pending shard ix.pending_lookup_shards)

-- tuples (last_used, shard) in their order
abbrev pub earlier : ℕ × ℕ → ℕ × ℕ → Bool
earlier (t, a) (u, b) = ltb t u || (t == u && leb a b)

unfoldable pub insert_by_age : ℕ × ℕ → List (ℕ × ℕ) → List (ℕ × ℕ)
insert_by_age x [] = x ∷ []
insert_by_age x (y ∷ ys) = if earlier x y then x ∷ y ∷ ys else y ∷ insert_by_age x ys

-- the sorted candidates, from the items of `_last_used`
unfoldable pub candidates : Index → Map ℕ → List (ℕ × ℕ)
candidates ix [] = []
candidates ix ((shard, used) ∷ m) =
    let rest = candidates ix m in
    if not (is_pinned shard ix) && not (mem shard ix.evicting)
    then insert_by_age (used, shard) rest
    else rest

-- the loop over them
unfoldable pub first_lockable : Siblings → List (ℕ × ℕ) → Locks → Option (ℕ × Locks)
first_lockable e [] l = none
first_lockable e ((_, shard) ∷ rest) l =
    let (l', ok) = acquire_exclusive e shard l in
    if ok then some (shard, l') else first_lockable e rest l

-- `begin_oldest_eviction`
unfoldable pub begin_oldest_eviction : Siblings → Index → Index × Option ℕ
begin_oldest_eviction e ix = elim (first_lockable e (candidates ix ix.last_used) ix.locks) [
  | none ↦ (ix, none)
  | some (shard, locks') ↦
      (record ix { locks = locks'; evicting = add shard ix.evicting }, some shard)
]

-- What the file system says of a shard after a failed eviction.
pub data Stat : Type 0 where
  no_directory vanished : Stat
  mtime : ℕ → Stat

-- `finish_eviction`
unfoldable pub finish_eviction : ℕ → Bool → Stat → Index → Index
finish_eviction shard success stat ix =
    let freed = record ix {
      evicting = discard shard ix.evicting;
      locks = release_exclusive shard ix.locks;
    } in
    if success
    then record freed {
      last_used = del shard ix.last_used;
      dirty_shards = discard shard ix.dirty_shards;
      last_persisted = del shard ix.last_persisted;
    }
    else elim stat [
      | no_directory ↦ freed
      | vanished ↦ record freed { last_used = del shard ix.last_used }
      | mtime t ↦ record freed { last_used = put shard t ix.last_used }
    ]

abbrev is_ready : ℕ → ℕ → Index → ℕ → Bool
is_ready now minimum_age ix shard =
    leb (get_or (lookup shard ix.last_persisted) 0 + minimum_age) now && not (mem shard ix.evicting)

unfoldable pub ready_shards : ℕ → ℕ → Index → List ℕ → List ℕ
ready_shards now minimum_age ix [] = []
ready_shards now minimum_age ix (shard ∷ dirty) =
    let rest = ready_shards now minimum_age ix dirty in
    if is_ready now minimum_age ix shard then shard ∷ rest else rest

unfoldable pub without : List ℕ → List ℕ → List ℕ
without [] dirty = dirty
without (shard ∷ ready) dirty = without ready (discard shard dirty)

unfoldable pub persist : ℕ → List ℕ → Map ℕ → Map ℕ
persist now [] m = m
persist now (shard ∷ ready) m = persist now ready (put shard now m)

-- `flush_touches`: the shards whose directory time it then sets, with the index that is left
unfoldable pub flush_touches : ℕ → ℕ → ℕ → Index → Index × List ℕ
unfolding ready_shards without persist
flush_touches now minimum_age max_updates ix =
    let ready = take max_updates (ready_shards now minimum_age ix ix.dirty_shards) in
    (
      record ix {
        dirty_shards = without ready ix.dirty_shards;
        last_persisted = persist now ready ix.last_persisted;
      },
      ready,
    )
