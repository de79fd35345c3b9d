-- ===== src/ShardLeases/Balance/Lookups.antt =====
-- Lookups keep the balance of leases and locks.
use deepseek_v4_flash_mi300x.Prelude.{
  ℕ, ◌+◌, ◌≡◌, refl, ◌∙◌, Bool, true, false, List, [], ◌∷◌, if◌then◌else◌, get_or, Bool-cases,
  Option-cases, inl, inr, mem, add, arith,
}
use deepseek_v4_flash_mi300x.Prelude.Map.{Map, lookup, put, lookup-put}
use deepseek_v4_flash_mi300x.Prelude.Totals.{
  IsDict, put-IsDict, total-put, AllValues-lookup, put-AllValues, occurrences, occurrences-add,
}
use deepseek_v4_flash_mi300x.ShardLeases.{
  Siblings, Locks, count, Index, acquire_shared, is_fenced, pins_of, begin_lookup, lease_candidate,
  lease_candidates, count_pending, candidates_of, lookup_begin,
}
use deepseek_v4_flash_mi300x.ShardLeases.Counts.{
  at, LocksOk, weight, count-acquire_shared, acquire_shared-LocksOk, acquire_shared-eviction_fds,
}
use deepseek_v4_flash_mi300x.ShardLeases.Balance.{Inv}

-- the pending counts of a request, empty if it has none
abbrev pending_of : ℕ → Index → Map ℕ
pending_of req ix = get_or (lookup req ix.pending_lookup_shards) []

pending_of-IsDict : (req : ℕ) (ix : Index) → Inv ix → IsDict (pending_of req ix)
pending_of-IsDict req ix v = elim (Option-cases (lookup req ix.pending_lookup_shards)) [
  | inl e ↦ rw e tt
  | inr (p, e) ↦ rw e (AllValues-lookup (λ p. IsDict p) req _ v.pending_dicts e)
]

-- A request's pending counts and the locks, moved together.
put_pending-Inv :
    (req : ℕ) (p : Map ℕ) (l : Locks) (ix : Index)
    → Inv ix
    → IsDict p
    → LocksOk l
    → l.eviction_lock_fds ≡ ix.locks.eviction_lock_fds
    → ((s : ℕ) → count s l + weight s (pending_of req ix) ≡ count s ix.locks + weight s p)
    → Inv (record ix { locks = l; pending_lookup_shards = put req p ix.pending_lookup_shards })
unfolding lookup
put_pending-Inv req p l ix v d ok same moved = record {
  balanced = λ s.
      ground (arith, v.balanced s, moved s, total-put (weight s) req p ix.pending_lookup_shards);
  locks_ok = ok;
  evicting_locked = λ s. rw same (v.evicting_locked s);
  request_dict = v.request_dict;
  pending_dict = put-IsDict req p ix.pending_lookup_shards v.pending_dict;
  job_dict = v.job_dict;
  pending_dicts = put-AllValues (λ p. IsDict p) req p _ d v.pending_dicts;
}

pub begin_lookup-Inv :
    (e : Siblings) (req shard : ℕ) (ix : Index) → Inv ix → Inv (begin_lookup e req shard ix)
unfolding begin_lookup
begin_lookup-Inv e req shard ix v =
    let l = (acquire_shared e shard ix.locks).0 in
    let p = pending_of req ix in
    elim (Bool-cases (is_fenced req ix)) [
      | inl closed ↦ rw closed v
      | inr live ↦ rw live (elim (Bool-cases (acquire_shared e shard ix.locks).1) [
        | inl got ↦ rw got (
            put_pending-Inv req (put shard (weight shard p + 1) p) l ix v
              (put-IsDict shard (weight shard p + 1) p (pending_of-IsDict req ix v))
              (acquire_shared-LocksOk e shard ix.locks v.locks_ok)
              (acquire_shared-eviction_fds e shard ix.locks)
              (λ s. ground (
                arith,
                got,
                count-acquire_shared e shard s ix.locks,
                lookup-put shard s (weight shard p + 1) p,
              )))
        | inr missed ↦ rw missed v
      ])
    ]

lease_candidate_frame :
    (e : Siblings) (shard : ℕ) (ix : Index)
    → (lease_candidate e shard ix).0 ≡ record ix { locks = (lease_candidate e shard ix).0.locks }
unfolding lease_candidate
lease_candidate_frame e shard ix = ground arith

lease_candidates_frame :
    (e : Siblings) (shards : List ℕ) (ix : Index)
    → (lease_candidates e shards ix).0
      ≡ record ix { locks = (lease_candidates e shards ix).0.locks }
unfolding lease_candidates
lease_candidates_frame e [] ix = refl
lease_candidates_frame e (shard ∷ shards) ix =
    let ix' = (lease_candidate e shard ix).0 in
    ground (arith, lease_candidate_frame e shard ix, lease_candidates_frame e shards ix')

lease_candidate_locks :
    (e : Siblings) (shard s : ℕ) (ix : Index)
    → count s (lease_candidate e shard ix).0.locks
      ≡ count s ix.locks + (if (lease_candidate e shard ix).1 then at shard s else 0)
unfolding lease_candidate
lease_candidate_locks e shard s ix = ground (arith, count-acquire_shared e shard s ix.locks)

lease_candidates_locks :
    (e : Siblings) (shards : List ℕ) (s : ℕ) (ix : Index)
    → let (ix', oks) = lease_candidates e shards ix in
      count s ix'.locks ≡ count s ix.locks + occurrences s (candidates_of shards oks)
unfolding lease_candidates occurrences
lease_candidates_locks e [] s ix = ground arith
lease_candidates_locks e (shard ∷ shards) s ix = ground (
  arith,
  lease_candidate_locks e shard s ix,
  lease_candidates_locks e shards s (lease_candidate e shard ix).0,
)

lease_candidate-LocksOk :
    (e : Siblings) (shard : ℕ) (ix : Index)
    → LocksOk ix.locks
    → LocksOk (lease_candidate e shard ix).0.locks
unfolding lease_candidate
lease_candidate-LocksOk e shard ix v = elim (Bool-cases (mem shard ix.evicting)) [
  | inl out ↦ rw out v
  | inr in_use ↦ rw in_use (acquire_shared-LocksOk e shard ix.locks v)
]

lease_candidates-LocksOk :
    (e : Siblings) (shards : List ℕ) (ix : Index)
    → LocksOk ix.locks
    → LocksOk (lease_candidates e shards ix).0.locks
unfolding lease_candidates
lease_candidates-LocksOk e [] ix v = v
lease_candidates-LocksOk e (shard ∷ shards) ix v =
    lease_candidates-LocksOk e shards (lease_candidate e shard ix).0
      (lease_candidate-LocksOk e shard ix v)

lease_candidates-eviction_fds :
    (e : Siblings) (shards : List ℕ) (ix : Index)
    → (lease_candidates e shards ix).0.locks.eviction_lock_fds ≡ ix.locks.eviction_lock_fds
unfolding lease_candidates lease_candidate
lease_candidates-eviction_fds e [] ix = refl
lease_candidates-eviction_fds e (shard ∷ shards) ix =
    lease_candidates-eviction_fds e shards (lease_candidate e shard ix).0
    ∙ ground (arith, acquire_shared-eviction_fds e shard ix.locks)

weight-count_pending :
    (shards : List ℕ) (oks : List Bool) (s : ℕ) (p : Map ℕ)
    → weight s (count_pending shards oks p) ≡ weight s p + occurrences s (candidates_of shards oks)
unfolding count_pending occurrences
weight-count_pending (x ∷ shards) (true ∷ oks) s p =
    let p' = put x (weight x p + 1) p in
    ground (arith, weight-count_pending shards oks s p', lookup-put x s (weight x p + 1) p)
weight-count_pending (x ∷ shards) (false ∷ oks) s p = weight-count_pending shards oks s p
weight-count_pending [] _ s p = ground arith
weight-count_pending (x ∷ shards) [] s p = ground arith

count_pending-IsDict :
    (shards : List ℕ) (oks : List Bool) (p : Map ℕ) → IsDict p → IsDict (count_pending shards oks p)
unfolding count_pending
count_pending-IsDict (x ∷ shards) (true ∷ oks) p d =
    count_pending-IsDict shards oks _ (put-IsDict x (weight x p + 1) p d)
count_pending-IsDict (x ∷ shards) (false ∷ oks) p d = count_pending-IsDict shards oks p d
count_pending-IsDict [] _ p d = d
count_pending-IsDict (x ∷ shards) [] p d = d

pub lookup_begin-Inv :
    (e : Siblings) (req : ℕ) (shards : List ℕ) (ix : Index)
    → Inv ix
    → Inv (lookup_begin e req shards ix).0
unfolding lookup_begin
lookup_begin-Inv e req shards ix v =
    let (ix', oks) = lease_candidates e shards ix in
    let p = pending_of req ix in
    elim (Bool-cases (is_fenced req ix)) [
      | inl closed ↦ rw closed v
      | inr live ↦
          rw (live, lease_candidates_frame e shards ix)
            (put_pending-Inv req (count_pending shards oks p) ix'.locks ix v
              (count_pending-IsDict shards oks p (pending_of-IsDict req ix v))
              (lease_candidates-LocksOk e shards ix v.locks_ok)
              (lease_candidates-eviction_fds e shards ix)
              (λ s.
                ground (
                  arith,
                  lease_candidates_locks e shards s ix,
                  weight-count_pending shards oks s p,
                )))
    ]

-- Nothing but another lease can stand in the way of a lease of the shard.
abbrev pub IsOpen : Siblings → Index → ℕ → Type 0
IsOpen e ix s = (e.exclude s ≡ false) × (mem s ix.evicting ≡ false)

pub acquire_open :
    (e : Siblings) (ix : Index) (s : ℕ)
    → Inv ix
    → IsOpen e ix s
    → (acquire_shared e s ix.locks).1 ≡ true
unfolding acquire_shared
acquire_open e ix s v o = ground (arith, v.evicting_locked s)

pub put_pin-Inv :
    (e : Siblings) (req shard : ℕ) (ix : Index)
    → Inv ix
    → (acquire_shared e shard ix.locks).1 ≡ true
    → mem shard (pins_of req ix) ≡ false
    → Inv (record ix {
      locks = (acquire_shared e shard ix.locks).0;
      request_shards = put req (add shard (pins_of req ix)) ix.request_shards;
    })
unfolding occurrences
put_pin-Inv e req shard ix v got new =
    let held = pins_of req ix in
    record {
      balanced = λ s. ground (
        arith,
        v.balanced s,
        count-acquire_shared e shard s ix.locks,
        occurrences-add s shard held,
        total-put (occurrences s) req (add shard held) ix.request_shards,
      );
      locks_ok = acquire_shared-LocksOk e shard ix.locks v.locks_ok;
      evicting_locked =
          λ s. rw (acquire_shared-eviction_fds e shard ix.locks) (v.evicting_locked s);
      request_dict = put-IsDict req (add shard held) ix.request_shards v.request_dict;
      pending_dict = v.pending_dict;
      job_dict = v.job_dict;
      pending_dicts = v.pending_dicts;
    }

-- recency is no part of the balance
pub used-Inv :
    (m : Map ℕ) (dirty : List ℕ) (ix : Index)
    → Inv ix
    → Inv (record ix { last_used = m; dirty_shards = dirty })
used-Inv m dirty ix v = record {
  balanced = v.balanced;
  locks_ok = v.locks_ok;
  evicting_locked = v.evicting_locked;
  request_dict = v.request_dict;
  pending_dict = v.pending_dict;
  job_dict = v.job_dict;
  pending_dicts = v.pending_dicts;
}
