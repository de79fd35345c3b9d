-- ===== src/ShardLeases/Balance/Evictions.antt =====
-- The start and the end of an eviction keep the balance of leases and locks.
use deepseek_v4_flash_mi300x.Prelude.{
  ℕ, ◌≡◌, refl, Bool, true, false, some, List, [], ◌∷◌, Bool-cases, Option-cases, inl, inr, add,
  discard, mem-add, mem-discard, arith,
}
use deepseek_v4_flash_mi300x.Prelude.Map.{Map}
use deepseek_v4_flash_mi300x.Prelude.Totals.{total, occurrences-mem}
use deepseek_v4_flash_mi300x.ShardLeases.{
  Siblings, Locks, Index, acquire_exclusive, release_exclusive,
}
use deepseek_v4_flash_mi300x.ShardLeases.Lru.{
  in_values, in_pending, is_pinned, first_lockable, candidates, begin_oldest_eviction, Stat,
  no_directory, vanished, mtime, finish_eviction,
}
use deepseek_v4_flash_mi300x.ShardLeases.Counts.{
  acquire_exclusive-LocksOk, release_exclusive-LocksOk,
}
use deepseek_v4_flash_mi300x.ShardLeases.Balance.{Inv, pins, pendings, holders}

pins-in_values : (s : ℕ) (m : Map (List ℕ)) → in_values s m ≡ false → pins s m ≡ 0
unfolding in_values total
pins-in_values s [] h = refl
pins-in_values s ((j, xs) ∷ m) h = ground (arith, pins-in_values s m, occurrences-mem s xs)

pendings-in_pending : (s : ℕ) (m : Map (Map ℕ)) → in_pending s m ≡ false → pendings s m ≡ 0
unfolding in_pending total
pendings-in_pending s [] h = refl
pendings-in_pending s ((j, p) ∷ m) h = ground (arith, pendings-in_pending s m)

-- a shard that eviction does not count as pinned has no lease
pub holders-is_pinned : (s : ℕ) (ix : Index) → is_pinned s ix ≡ false → holders s ix ≡ 0
unfolding is_pinned
holders-is_pinned s ix h = ground (
  arith,
  pins-in_values s ix.request_shards,
  pins-in_values s ix.job_shards,
  pendings-in_pending s ix.pending_lookup_shards,
)

pub first_lockable_locks :
    (e : Siblings) (xs : List (ℕ × ℕ)) (l : Locks) {s : ℕ} {l' : Locks}
    → first_lockable e xs l ≡ some (s, l')
    → (l' ≡ (acquire_exclusive e s l).0) × ((acquire_exclusive e s l).1 ≡ true)
unfolding first_lockable
first_lockable_locks e [] l h = absurd (ground arith)
first_lockable_locks e ((u, t) ∷ xs) l h = elim (Bool-cases (acquire_exclusive e t l).1) [
  | inl got ↦ ground arith
  | inr missed ↦ first_lockable_locks e xs l (ground arith)
]

evict-Inv :
    (e : Siblings) (s : ℕ) (ix : Index)
    → Inv ix
    → (acquire_exclusive e s ix.locks).1 ≡ true
    → Inv (record ix { locks = (acquire_exclusive e s ix.locks).0; evicting = add s ix.evicting })
unfolding acquire_exclusive
evict-Inv e s ix v got = record {
  balanced = λ t. ground (arith, v.balanced t);
  locks_ok = acquire_exclusive-LocksOk e s ix.locks v.locks_ok;
  evicting_locked = λ t.
      ground (
        arith,
        v.evicting_locked t,
        mem-add s t ix.evicting,
        mem-add s t ix.locks.eviction_lock_fds,
      );
  request_dict = v.request_dict;
  pending_dict = v.pending_dict;
  job_dict = v.job_dict;
  pending_dicts = v.pending_dicts;
}

pub begin_oldest_eviction-Inv :
    (e : Siblings) (ix : Index) → Inv ix → Inv (begin_oldest_eviction e ix).0
unfolding begin_oldest_eviction
begin_oldest_eviction-Inv e ix v =
    elim (Option-cases (first_lockable e (candidates ix ix.last_used) ix.locks)) [
      | inl idle ↦ rw (idle, begin_oldest_eviction) v
      | inr ((s, l), found) ↦
          let (is, got) = first_lockable_locks e _ ix.locks found in
          rw (found, begin_oldest_eviction, is) (evict-Inv e s ix v got)
    ]

unevict-Inv :
    (s : ℕ) (ix : Index)
    → Inv ix
    → Inv (record ix { locks = release_exclusive s ix.locks; evicting = discard s ix.evicting })
unfolding release_exclusive
unevict-Inv s ix v = record {
  balanced = v.balanced;
  locks_ok = release_exclusive-LocksOk s ix.locks v.locks_ok;
  evicting_locked = λ t. ground (
    arith,
    v.evicting_locked t,
    mem-discard s t ix.evicting,
    mem-discard s t ix.locks.eviction_lock_fds,
  );
  request_dict = v.request_dict;
  pending_dict = v.pending_dict;
  job_dict = v.job_dict;
  pending_dicts = v.pending_dicts;
}

-- the recency data are no part of the balance
pub recency-Inv :
    (used : Map ℕ) (dirty : List ℕ) (kept : Map ℕ) (ix : Index)
    → Inv ix
    → Inv (record ix { last_used = used; dirty_shards = dirty; last_persisted = kept })
recency-Inv used dirty kept ix v = record {
  balanced = v.balanced;
  locks_ok = v.locks_ok;
  evicting_locked = v.evicting_locked;
  request_dict = v.request_dict;
  pending_dict = v.pending_dict;
  job_dict = v.job_dict;
  pending_dicts = v.pending_dicts;
}

pub finish_eviction-Inv :
    (s : ℕ) (success : Bool) (stat : Stat) (ix : Index)
    → Inv ix
    → Inv (finish_eviction s success stat ix)
unfolding finish_eviction
finish_eviction-Inv s true stat ix v = recency-Inv _ _ _ _ (unevict-Inv s ix v)
finish_eviction-Inv s false no_directory ix v = unevict-Inv s ix v
finish_eviction-Inv s false vanished ix v = recency-Inv _ _ _ _ (unevict-Inv s ix v)
finish_eviction-Inv s false (mtime t) ix v = recency-Inv _ _ _ _ (unevict-Inv s ix v)
