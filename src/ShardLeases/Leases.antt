-- ===== src/ShardLeases/Leases.antt =====
-- patches/tiering-fs-bounded-lru.py, `ShardLeaseIndex`: the life of requests and jobs. A path is the
-- result of `shard_for_path`, `none` where that raises; an operation that can raise says `none`.
use deepseek_v4_flash_mi300x.Prelude.{
  ℕ, Bool, true, false, not, ◌&&◌, ◌||◌, Option, none, some, List, [], ◌∷◌, ◌++◌, length, drop, ltb,
  if◌then◌else◌, get_or, mem, add, discard,
}
use deepseek_v4_flash_mi300x.Prelude.Map.{lookup, put, del, set_default}
use deepseek_v4_flash_mi300x.ShardLeases.{
  Siblings, Locks, Index, acquire_shared, release_all, is_fenced, pins_of, release_pending_shards,
  drop_request_pending, release_request_pins,
}

-- `resolve_cached_lookup`, for a path that resolves
unfoldable pub pin_cached : Siblings → ℕ → ℕ → Bool → Index → Index × Bool
pin_cached e req shard hit ix =
    let opened = record ix { request_shards = set_default req [] ix.request_shards } in
    let (locks', ok) = acquire_shared e shard ix.locks in
    if hit && not (is_fenced req ix || mem shard ix.evicting)
    then (if mem shard (pins_of req opened)
        then (opened, true)
        else (if ok
            then (
              record opened {
                locks = locks';
                request_shards = put req (add shard (pins_of req opened)) opened.request_shards;
              },
              true,
            )
            else (opened, false)))
    else (opened, false)

unfoldable pub resolve_cached_lookup : Siblings → ℕ → ℕ → ℕ → Bool → Index → Index × Bool
unfolding pin_cached
resolve_cached_lookup e req now shard hit ix =
    let (pinned, valid_hit) = pin_cached e req shard hit ix in
    let dropped = release_pending_shards req (shard ∷ []) pinned in
    if valid_hit
    then (
      record dropped {
        last_used = put shard now dropped.last_used;
        dirty_shards = add shard dropped.dirty_shards;
      },
      true,
    )
    else (dropped, false)

-- `open_request`
unfoldable pub open_request : ℕ → Index → Index
open_request req ix =
    let unpinned = record ix {
      closed_requests = discard req ix.closed_requests;
      lookup_cancelled_requests = discard req ix.lookup_cancelled_requests;
      locks = release_all (pins_of req ix) ix.locks;
      request_shards = del req ix.request_shards;
    } in
    let dropped = drop_request_pending req unpinned in
    record dropped { request_shards = put req [] dropped.request_shards }

-- `cancel_lookup`
unfoldable pub cancel_lookup : ℕ → Bool → Index → Index
cancel_lookup req release_pins ix =
    let dropped =
      drop_request_pending req
        (record ix { lookup_cancelled_requests = add req ix.lookup_cancelled_requests }) in
    if release_pins then release_request_pins req dropped else dropped

abbrev pub max_closed_requests : ℕ
max_closed_requests = 100000

-- the bounded record of closed requests, oldest first
unfoldable pub remember_closed : ℕ → List ℕ → List ℕ
remember_closed req closed =
    let moved = discard req closed ++ req ∷ [] in
    if ltb max_closed_requests (length moved) then drop 1 moved else moved

-- `release_request`
unfoldable pub release_request : ℕ → Index → Index
unfolding remember_closed
release_request req ix =
    let unpinned = release_request_pins req ix in
    let dropped =
      drop_request_pending req
        (record unpinned { request_shards = del req unpinned.request_shards }) in
    record dropped {
      lookup_cancelled_requests = discard req dropped.lookup_cancelled_requests;
      closed_requests = remember_closed req dropped.closed_requests;
    }

-- the shards of the paths, `none` if one raises
unfoldable pub resolve_all : List (Option ℕ) → Option (List ℕ)
resolve_all [] = some []
resolve_all (none ∷ paths) = none
resolve_all (some shard ∷ paths) = elim (resolve_all paths) [
  | none ↦ none
  | some shards ↦ some (add shard shards)
]

-- the loop of `pin_job`, which gives back what it acquired when it meets a shard that it cannot have
unfoldable pub pin_shards : Siblings → List ℕ → List ℕ → List ℕ → Locks → Locks × Bool
pin_shards e evicting acquired [] l = (l, true)
pin_shards e evicting acquired (shard ∷ shards) l =
    let (l', ok) = acquire_shared e shard l in
    let rest = pin_shards e evicting (acquired ++ shard ∷ []) shards l' in
    if mem shard evicting
    then (release_all acquired l, false)
    else (if ok then rest else (release_all acquired l', false))

abbrev pub meets : List ℕ → List ℕ → Bool
meets [] evicting = false
meets (shard ∷ shards) evicting = mem shard evicting || meets shards evicting

-- `pin_job` once its set of shards is known
unfoldable pub pin_job_shards : Siblings → ℕ → List ℕ → Index → Index × Bool
pin_job_shards e job shards ix =
    let (locks', ok) = pin_shards e ix.evicting [] shards ix.locks in
    if not ok
    then (record ix { locks = locks' }, false)
    else (if meets shards ix.evicting
        then (record ix { locks = release_all shards locks' }, false)
        else (record ix { locks = locks'; job_shards = put job shards ix.job_shards }, true))

-- `pin_job`
unfoldable pub pin_job : Siblings → ℕ → List (Option ℕ) → Index → Index × Option Bool
pin_job e job paths ix = elim (resolve_all paths) [
  | none ↦ (ix, none)
  | some shards ↦ let (ix', ok) = pin_job_shards e job shards ix in (ix', some ok)
]

-- `release_job`
unfoldable pub release_job : ℕ → Index → Index
release_job job ix = record ix {
  locks = release_all (get_or (lookup job ix.job_shards) []) ix.locks;
  job_shards = del job ix.job_shards;
}
