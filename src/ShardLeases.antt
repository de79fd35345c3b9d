-- ===== src/ShardLeases.antt =====
-- patches/tiering-fs-bounded-lru.py, `ShardLeaseIndex`: LRU metadata and leases of hash shards.
-- A request, a job and a shard are numbers (a shard's is its three hex digits, whose order is that
-- of the paths under one root); a time is a number of clock ticks. A path comes as the result of
-- `shard_for_path` (ShardPaths), `none` where that raises.
use deepseek_v4_flash_mi300x.Prelude.{
  ℕ, zero, suc, ◌+◌, ◌-◌, Bool, true, false, not, ◌&&◌, ◌||◌, Option, none, some, List, [], ◌∷◌,
  ◌++◌, map, length, take, drop, ltb, leb, ◌==◌, if◌then◌else◌, get_or, mem, add, discard,
}
use deepseek_v4_flash_mi300x.Prelude.Map.{Map, lookup, has, put, del, set_default}
mod LockTable
pub mod Leases
pub mod Lru
pub mod Counts
pub mod Balance
pub mod Runs
pub mod Exclusion
pub use LockTable.{Siblings, Locks}
unfoldable pub use LockTable.{
  count, acquire_shared, release_shared, release_all, acquire_exclusive, release_exclusive,
}

pub record Index : Type 0 where
  pub locks : Locks
  pub last_used : Map ℕ
  pub request_shards : Map (List ℕ)
  pub pending_lookup_shards : Map (Map ℕ)
  pub job_shards : Map (List ℕ)
  pub evicting : List ℕ
  pub dirty_shards : List ℕ
  pub last_persisted : Map ℕ
  pub closed_requests : List ℕ
  pub lookup_cancelled_requests : List ℕ

abbrev pub is_fenced : ℕ → Index → Bool
is_fenced req ix = mem req ix.closed_requests || mem req ix.lookup_cancelled_requests

-- `_release_pending_shards_locked`: one pending count of a shard
unfoldable pub drop_one : ℕ → Map ℕ → Map ℕ
drop_one shard pending =
    if get_or (lookup shard pending) 0 == 0
    then pending
    else (if ltb 1 (get_or (lookup shard pending) 0)
        then put shard (get_or (lookup shard pending) 0 - 1) pending
        else del shard pending)

unfoldable pub drop_lock : ℕ → Map ℕ → Locks → Locks
drop_lock shard pending l =
    if get_or (lookup shard pending) 0 == 0 then l else release_shared shard l

unfoldable pub drop_pending : List ℕ → Map ℕ → Locks → Map ℕ × Locks
drop_pending [] pending l = (pending, l)
drop_pending (shard ∷ shards) pending l =
    drop_pending shards (drop_one shard pending) (drop_lock shard pending l)

abbrev pub store_pending : ℕ → Map ℕ → Map (Map ℕ) → Map (Map ℕ)
store_pending req [] m = del req m
store_pending req (e ∷ pending) m = put req (e ∷ pending) m

unfoldable pub release_pending_shards : ℕ → List ℕ → Index → Index
release_pending_shards req shards ix = elim (lookup req ix.pending_lookup_shards) [
  | none ↦ ix
  | some pending ↦
      let (pending', locks') = drop_pending shards pending ix.locks in
      record ix {
        locks = locks';
        pending_lookup_shards = store_pending req pending' ix.pending_lookup_shards;
      }
]

abbrev pub replicate : ℕ → ℕ → List ℕ
replicate zero a = []
replicate (suc n) a = a ∷ replicate n a

-- each shard as often as it is pending
unfoldable pub expand : Map ℕ → List ℕ
expand [] = []
expand ((shard, n) ∷ pending) = replicate n shard ++ expand pending

-- `pending = self._pending_lookup_shards.pop(req_id, None)`, and the release of what it held
unfoldable pub drop_request_pending : ℕ → Index → Index
drop_request_pending req ix = record ix {
  locks = release_all (expand (get_or (lookup req ix.pending_lookup_shards) [])) ix.locks;
  pending_lookup_shards = del req ix.pending_lookup_shards;
}

abbrev pub pins_of : ℕ → Index → List ℕ
pins_of req ix = get_or (lookup req ix.request_shards) []

-- `_release_request_pins_locked`, which is also `release_request_pins`
unfoldable pub release_request_pins : ℕ → Index → Index
release_request_pins req ix = record ix {
  locks = release_all (pins_of req ix) ix.locks;
  request_shards = put req [] ix.request_shards;
}

-- `begin_lookup`, for a path that resolves
unfoldable pub begin_lookup : Siblings → ℕ → ℕ → Index → Index
begin_lookup e req shard ix =
    let (locks', ok) = acquire_shared e shard ix.locks in
    let pending = get_or (lookup req ix.pending_lookup_shards) [] in
    if is_fenced req ix
    then ix
    else (if ok
        then record ix {
          locks = locks';
          pending_lookup_shards =
              put req (put shard (get_or (lookup shard pending) 0 + 1) pending)
                ix.pending_lookup_shards;
        }
        else ix)

-- one path of the first locked block of `lookup_and_pin`
unfoldable pub lease_candidate : Siblings → ℕ → Index → Index × Bool
lease_candidate e shard ix =
    let (locks', ok) = acquire_shared e shard ix.locks in
    if mem shard ix.evicting then (ix, false) else (record ix { locks = locks' }, ok)

unfoldable pub lease_candidates : Siblings → List ℕ → Index → Index × List Bool
lease_candidates e [] ix = (ix, [])
lease_candidates e (shard ∷ shards) ix =
    let (ix', ok) = lease_candidate e shard ix in
    let (ix'', oks) = lease_candidates e shards ix' in (ix'', ok ∷ oks)

unfoldable pub count_pending : List ℕ → List Bool → Map ℕ → Map ℕ
count_pending (shard ∷ shards) (true ∷ oks) pending =
    count_pending shards oks (put shard (get_or (lookup shard pending) 0 + 1) pending)
count_pending (shard ∷ shards) (false ∷ oks) pending = count_pending shards oks pending
count_pending _ _ pending = pending

abbrev pub candidates_of : List ℕ → List Bool → List ℕ
candidates_of (shard ∷ shards) (true ∷ oks) = shard ∷ candidates_of shards oks
candidates_of (shard ∷ shards) (false ∷ oks) = candidates_of shards oks
candidates_of _ _ = []

-- The first locked block of `lookup_and_pin`; `none` if the request is closed or cancelled.
unfoldable pub lookup_begin : Siblings → ℕ → List ℕ → Index → Index × Option (List Bool)
lookup_begin e req shards ix =
    let (ix', eligible) = lease_candidates e shards ix in
    let pending = get_or (lookup req ix.pending_lookup_shards) [] in
    if is_fenced req ix then (ix, none) else (
      record ix' {
        pending_lookup_shards =
            put req (count_pending shards eligible pending) ix.pending_lookup_shards;
      },
      some eligible,
    )

-- `[next(candidate_hits) if ok else False for ok in eligible]`; `none` if the iterator runs out
unfoldable pub merge_hits : List Bool → List Bool → Option (List Bool)
merge_hits [] hits = some []
merge_hits (false ∷ eligible) hits = elim (merge_hits eligible hits) [
  | none ↦ none
  | some rest ↦ some (false ∷ rest)
]
merge_hits (true ∷ eligible) [] = none
merge_hits (true ∷ eligible) (hit ∷ hits) = elim (merge_hits eligible hits) [
  | none ↦ none
  | some rest ↦ some (hit ∷ rest)
]

-- A hit of the last block: it takes a lock for a new pin without looking whether it got one.
unfoldable pub pin_hit : Siblings → ℕ → ℕ → ℕ → Index → Index
pin_hit e req now shard ix =
    let used = record ix {
      last_used = put shard now ix.last_used;
      dirty_shards = add shard ix.dirty_shards;
    } in
    if mem shard (pins_of req ix) then used else record used {
      locks = (acquire_shared e shard ix.locks).0;
      request_shards = put req (add shard (pins_of req ix)) ix.request_shards;
    }

unfoldable pub pin_hits : Siblings → ℕ → ℕ → List ℕ → List Bool → Index → Index
pin_hits e req now (shard ∷ shards) (true ∷ hits) ix =
    pin_hits e req now shards hits (pin_hit e req now shard ix)
pin_hits e req now (shard ∷ shards) (false ∷ hits) ix = pin_hits e req now shards hits ix
pin_hits e req now _ _ ix = ix

abbrev pub all_false : List ℕ → List Bool
all_false [] = []
all_false (x ∷ xs) = false ∷ all_false xs

-- The last locked block of `lookup_and_pin`.
unfoldable pub lookup_end :
    Siblings → ℕ → ℕ → List ℕ → List Bool → List Bool → Index → Index × List Bool
lookup_end e req now shards eligible hits ix =
    let dropped = release_pending_shards req (candidates_of shards eligible) ix in
    if is_fenced req ix then (dropped, all_false shards) else (
      pin_hits e req now shards hits
          (record dropped { request_shards = set_default req [] dropped.request_shards }),
      hits,
    )

-- `lookup_and_pin` of paths that resolve. `exists` is what the probe of the candidates gives, `none`
-- if it raises; `between` is what other threads do to the index while the lock is not held. The
-- result is `none` where the call raises.
unfoldable pub lookup_and_pin :
    Siblings
    → Siblings
    → ℕ
    → ℕ
    → List ℕ
    → Option (List Bool)
    → (Index → Index)
    → Index
    → Index × Option (List Bool)
lookup_and_pin e e' req now shards exists between ix =
    let (begun, fate) = lookup_begin e req shards ix in
    elim fate [
      | none ↦ (begun, some (all_false shards))
      | some eligible ↦ elim exists [
        | none ↦ (release_pending_shards req (candidates_of shards eligible) (between begun), none)
        | some found ↦ elim (merge_hits eligible found) [
          | none ↦
              (release_pending_shards req (candidates_of shards eligible) (between begun), none)
          | some hits ↦
              let (ended, answer) = lookup_end e' req now shards eligible hits (between begun) in
              (ended, some answer)
        ]
      ]
    ]
