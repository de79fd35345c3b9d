-- ===== src/ShardLeases/Balance.antt =====
-- The leases of requests, lookups and jobs against the counts of the shard locks.
use deepseek_v4_flash_mi300x.Prelude.{
  ℕ, zero, suc, ◌+◌, ◌-◌, ◌≤◌, ◌≡◌, refl, Bool, true, false, none, some, List, [], ◌∷◌, ltb, ◌==◌,
  if◌then◌else◌, get_or, Bool-cases, Option-cases, inl, inr, mem, arith,
}
use deepseek_v4_flash_mi300x.Prelude.Map.{
  Map, lookup, has, put, del, lookup-put, lookup-del, set_default,
}
use deepseek_v4_flash_mi300x.Prelude.Totals.{
  IsDict, put-IsDict, del-IsDict, total, worth, total-put, total-del, worth-le-total, AllValues,
  AllValues-lookup, put-AllValues, del-AllValues, occurrences, occurrences-append,
}
use deepseek_v4_flash_mi300x.ShardLeases.{
  Siblings, Locks, count, Index, release_all, drop_one, drop_pending, store_pending,
  release_pending_shards, replicate, expand, drop_request_pending, pins_of, release_request_pins,
}
use deepseek_v4_flash_mi300x.ShardLeases.Counts.{
  at, LocksOk, weight, count-release_all, release_all-LocksOk, count-drop_pending,
  drop_pending-LocksOk, release_all-eviction_fds, drop_pending-eviction_fds, drop_pending-IsDict,
}
pub mod Lookups
pub mod Pins
pub mod Jobs
pub mod Evictions
pub mod Requests

abbrev pub pins : ℕ → Map (List ℕ) → ℕ
pins s m = total (occurrences s) m

abbrev pub pendings : ℕ → Map (Map ℕ) → ℕ
pendings s m = total (weight s) m

-- how many leases name the shard
abbrev pub holders : ℕ → Index → ℕ
holders s ix = pins s ix.request_shards + pendings s ix.pending_lookup_shards + pins s ix.job_shards

-- Each shard's lock is counted once for each lease of a request, a pending lookup or a job, and a
-- shard that is being evicted is locked exclusively, so that it has no lease.
pub record Inv (ix : Index) : Type 0 where
  pub balanced : (s : ℕ) → count s ix.locks ≡ holders s ix
  pub locks_ok : LocksOk ix.locks
  pub evicting_locked : (s : ℕ) → mem s ix.evicting ≡ mem s ix.locks.eviction_lock_fds
  pub request_dict : IsDict ix.request_shards
  pub pending_dict : IsDict ix.pending_lookup_shards
  pub job_dict : IsDict ix.job_shards
  pub pending_dicts : AllValues (λ p. IsDict p) ix.pending_lookup_shards

occurrences-replicate : (s n a : ℕ) → occurrences s (replicate n a) ≡ (if a == s then n else 0)
unfolding occurrences
occurrences-replicate s zero a = ground arith
occurrences-replicate s (suc n) a = ground (arith, occurrences-replicate s n a)

pub occurrences-expand : (s : ℕ) (p : Map ℕ) → IsDict p → occurrences s (expand p) ≡ weight s p
unfolding expand lookup occurrences
occurrences-expand s [] d = refl
occurrences-expand s ((x, n) ∷ p) d = ground (
  arith,
  occurrences-append s (replicate n x) (expand p),
  occurrences-replicate s n x,
  occurrences-expand s p d.1,
)

pub release_request_pins-Inv : (req : ℕ) (ix : Index) → Inv ix → Inv (release_request_pins req ix)
unfolding release_request_pins occurrences
release_request_pins-Inv req ix v = record {
  balanced = λ s. ground (
    arith,
    v.balanced s,
    count-release_all (pins_of req ix) s ix.locks,
    total-put (occurrences s) req [] ix.request_shards,
  );
  locks_ok = release_all-LocksOk (pins_of req ix) ix.locks v.locks_ok;
  evicting_locked =
      λ s. rw (release_all-eviction_fds (pins_of req ix) ix.locks) (v.evicting_locked s);
  request_dict = put-IsDict req [] ix.request_shards v.request_dict;
  pending_dict = v.pending_dict;
  job_dict = v.job_dict;
  pending_dicts = v.pending_dicts;
}

worth-expand :
    (s req : ℕ) (ix : Index)
    → Inv ix
    → occurrences s (expand (get_or (lookup req ix.pending_lookup_shards) []))
      ≡ worth (weight s) (lookup req ix.pending_lookup_shards)
unfolding expand occurrences
worth-expand s req ix v = elim (Option-cases (lookup req ix.pending_lookup_shards)) [
  | inl e ↦ rw e refl
  | inr (p, e) ↦
      rw e (occurrences-expand s p (AllValues-lookup (λ p. IsDict p) req _ v.pending_dicts e))
]

pub drop_request_pending-Inv : (req : ℕ) (ix : Index) → Inv ix → Inv (drop_request_pending req ix)
unfolding drop_request_pending
drop_request_pending-Inv req ix v =
    let gone = expand (get_or (lookup req ix.pending_lookup_shards) []) in
    record {
      balanced = λ s. ground (
        arith,
        v.balanced s,
        worth-expand s req ix v,
        count-release_all gone s ix.locks,
        total-del (weight s) req ix.pending_lookup_shards v.pending_dict,
      );
      locks_ok = release_all-LocksOk gone ix.locks v.locks_ok;
      evicting_locked = λ s. rw (release_all-eviction_fds gone ix.locks) (v.evicting_locked s);
      request_dict = v.request_dict;
      pending_dict = del-IsDict req ix.pending_lookup_shards v.pending_dict;
      job_dict = v.job_dict;
      pending_dicts = del-AllValues (λ p. IsDict p) req ix.pending_lookup_shards v.pending_dicts;
    }

store_pending-IsDict :
    (req : ℕ) (p : Map ℕ) (m : Map (Map ℕ)) → IsDict m → IsDict (store_pending req p m)
store_pending-IsDict req [] m d = del-IsDict req m d
store_pending-IsDict req (e ∷ p) m d = put-IsDict req (e ∷ p) m d

store_pending-AllValues :
    (req : ℕ) (p : Map ℕ) (m : Map (Map ℕ))
    → IsDict p
    → AllValues (λ p. IsDict p) m
    → AllValues (λ p. IsDict p) (store_pending req p m)
store_pending-AllValues req [] m d a = del-AllValues (λ p. IsDict p) req m a
store_pending-AllValues req (e ∷ p) m d a = put-AllValues (λ p. IsDict p) req (e ∷ p) m d a

pendings-store_pending :
    (s req : ℕ) (p : Map ℕ) (m : Map (Map ℕ))
    → IsDict m
    → pendings s (store_pending req p m) + worth (weight s) (lookup req m)
      ≡ pendings s m + weight s p
unfolding lookup
pendings-store_pending s req [] m d = omega (arith, total-del (weight s) req m d)
pendings-store_pending s req (e ∷ p) m d = total-put (weight s) req (e ∷ p) m

pub release_pending_shards-Inv :
    (req : ℕ) (shards : List ℕ) (ix : Index) → Inv ix → Inv (release_pending_shards req shards ix)
unfolding release_pending_shards
release_pending_shards-Inv req shards ix v =
    elim (Option-cases (lookup req ix.pending_lookup_shards)) [
      | inl e ↦ rw (e, release_pending_shards) v
      | inr (p, e) ↦
          let d : IsDict p = AllValues-lookup (λ p. IsDict p) req _ v.pending_dicts e in
          let p' = (drop_pending shards p ix.locks).0 in
          let d' : IsDict p' = drop_pending-IsDict shards p ix.locks d in
          rw (e, release_pending_shards)
            (record {
              balanced = λ s. ground (
                arith,
                v.balanced s,
                worth-le-total (weight s) req ix.pending_lookup_shards,
                count-drop_pending shards s p ix.locks,
                pendings-store_pending s req p' ix.pending_lookup_shards v.pending_dict,
              );
              locks_ok = drop_pending-LocksOk shards p ix.locks v.locks_ok;
              evicting_locked =
                  λ s. rw (drop_pending-eviction_fds shards p ix.locks) (v.evicting_locked s);
              request_dict = v.request_dict;
              pending_dict = store_pending-IsDict req p' _ v.pending_dict;
              job_dict = v.job_dict;
              pending_dicts = store_pending-AllValues req p' _ d' v.pending_dicts;
            })
    ]
