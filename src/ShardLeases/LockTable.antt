-- ===== src/ShardLeases/LockTable.antt =====
-- patches/tiering-fs-bounded-lru.py, `ShardLeaseIndex`: the shard locks. One descriptor holds the
-- process's shared `flock` of a shard, and a count says how many leases share it. A set of shards
-- stands for the dict from a shard to its open descriptor. `Siblings` is what the other processes
-- hold when the call is made.
use deepseek_v4_flash_mi300x.Prelude.{
  ℕ, ◌+◌, ◌-◌, Bool, true, false, ◌||◌, List, [], ◌∷◌, ltb, if◌then◌else◌, get_or, mem, add,
  discard,
}
use deepseek_v4_flash_mi300x.Prelude.Map.{Map, lookup, put, del}

pub record Siblings : Type 0 where
  pub exclude : ℕ → Bool  -- another process holds the shard's lock exclusively
  pub hold : ℕ → Bool  -- another process holds it at all

pub record Locks : Type 0 where
  pub shared_lock_fds : List ℕ
  pub shared_lock_counts : Map ℕ
  pub eviction_lock_fds : List ℕ

abbrev pub count : ℕ → Locks → ℕ
count shard l = get_or (lookup shard l.shared_lock_counts) 0

-- `_acquire_shared_locked`
unfoldable pub acquire_shared : Siblings → ℕ → Locks → Locks × Bool
acquire_shared e shard l =
    if ltb 0 (count shard l)
    then (
      record l { shared_lock_counts = put shard (count shard l + 1) l.shared_lock_counts },
      true,
    )
    else (if mem shard l.eviction_lock_fds || e.exclude shard then (l, false) else (
      record l {
        shared_lock_fds = add shard l.shared_lock_fds;
        shared_lock_counts = put shard 1 l.shared_lock_counts;
      },
      true,
    ))

-- `_release_shared_locked`
unfoldable pub release_shared : ℕ → Locks → Locks
release_shared shard l =
    if ltb 1 (count shard l)
    then record l { shared_lock_counts = put shard (count shard l - 1) l.shared_lock_counts }
    else record l {
      shared_lock_counts = del shard l.shared_lock_counts;
      shared_lock_fds = discard shard l.shared_lock_fds;
    }

-- `_release_shared_locked` for each shard
unfoldable pub release_all : List ℕ → Locks → Locks
release_all [] l = l
release_all (shard ∷ shards) l = release_all shards (release_shared shard l)

-- the exclusive `flock` of `begin_oldest_eviction`, without waiting
unfoldable pub acquire_exclusive : Siblings → ℕ → Locks → Locks × Bool
acquire_exclusive e shard l =
    if mem shard l.shared_lock_fds || mem shard l.eviction_lock_fds || e.hold shard
    then (l, false)
    else (record l { eviction_lock_fds = add shard l.eviction_lock_fds }, true)

unfoldable pub release_exclusive : ℕ → Locks → Locks
release_exclusive shard l = record l { eviction_lock_fds = discard shard l.eviction_lock_fds }
