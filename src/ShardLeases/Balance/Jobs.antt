-- ===== src/ShardLeases/Balance/Jobs.antt =====
-- Transfers and evictions keep the balance of leases and locks.
use deepseek_v4_flash_mi300x.Prelude.{
  ℕ, ◌+◌, ◌-◌, ◌≡◌, refl, ◌∙◌, Option, none, List, [], ◌∷◌, ◌++◌, if◌then◌else◌, get_or, Bool-cases,
  Option-cases, inl, inr, mem, arith,
}
use deepseek_v4_flash_mi300x.Prelude.Map.{lookup}
use deepseek_v4_flash_mi300x.Prelude.Totals.{
  put-IsDict, del-IsDict, total-put, total-del, occurrences, occurrences-append,
}
use deepseek_v4_flash_mi300x.ShardLeases.{
  Siblings, Locks, count, Index, acquire_shared, release_all,
}
use deepseek_v4_flash_mi300x.ShardLeases.Leases.{
  resolve_all, pin_shards, meets, pin_job_shards, pin_job, release_job,
}
use deepseek_v4_flash_mi300x.ShardLeases.Counts.{
  LocksOk, count-acquire_shared, acquire_shared-LocksOk, acquire_shared-eviction_fds,
  count-release_all, release_all-LocksOk, release_all-eviction_fds,
}
use deepseek_v4_flash_mi300x.ShardLeases.Balance.{Inv}

-- the locks of a shard after the loop of `pin_job`: all of them, or what they were
count-pin_shards :
    (e : Siblings) (ev acquired shards : List ℕ) (s : ℕ) (l : Locks)
    → let (l', ok) = pin_shards e ev acquired shards l in
      count s l'
      ≡ (if ok then count s l + occurrences s shards else count s l - occurrences s acquired)
unfolding pin_shards occurrences
count-pin_shards e ev acquired [] s l = omega arith
count-pin_shards e ev acquired (x ∷ xs) s l =
    let l' = (acquire_shared e x l).0 in
    ground (
      arith,
      count-acquire_shared e x s l,
      count-release_all acquired s l,
      count-release_all acquired s l',
      occurrences-append s acquired (x ∷ []),
      count-pin_shards e ev (acquired ++ x ∷ []) xs s l',
    )

pin_shards-LocksOk :
    (e : Siblings) (ev acquired shards : List ℕ) (l : Locks)
    → LocksOk l
    → LocksOk (pin_shards e ev acquired shards l).0
unfolding pin_shards
pin_shards-LocksOk e ev acquired [] l v = v
pin_shards-LocksOk e ev acquired (x ∷ xs) l v =
    let l' = (acquire_shared e x l).0 in
    let v' = acquire_shared-LocksOk e x l v in
    elim (Bool-cases (mem x ev)) [
      | inl out ↦ rw out (release_all-LocksOk acquired l v)
      | inr in_use ↦ rw in_use (elim (Bool-cases (acquire_shared e x l).1) [
        | inl got ↦ rw got (pin_shards-LocksOk e ev (acquired ++ x ∷ []) xs l' v')
        | inr missed ↦ rw missed (release_all-LocksOk acquired l' v')
      ])
    ]

pin_shards-eviction_fds :
    (e : Siblings) (ev acquired shards : List ℕ) (l : Locks)
    → (pin_shards e ev acquired shards l).0.eviction_lock_fds ≡ l.eviction_lock_fds
unfolding pin_shards
pin_shards-eviction_fds e ev acquired [] l = refl
pin_shards-eviction_fds e ev acquired (x ∷ xs) l =
    let l' = (acquire_shared e x l).0 in
    ground (
      arith,
      release_all-eviction_fds acquired l,
      release_all-eviction_fds acquired l',
      acquire_shared-eviction_fds e x l,
      pin_shards-eviction_fds e ev (acquired ++ x ∷ []) xs l',
    )

-- locks that move with no lease leave the balance where every count is as before
same_counts-Inv :
    (l : Locks) (ix : Index)
    → Inv ix
    → LocksOk l
    → l.eviction_lock_fds ≡ ix.locks.eviction_lock_fds
    → ((s : ℕ) → count s l ≡ count s ix.locks)
    → Inv (record ix { locks = l })
same_counts-Inv l ix v ok same counts = record {
  balanced = λ s. counts s ∙ v.balanced s;
  locks_ok = ok;
  evicting_locked = λ s. rw same (v.evicting_locked s);
  request_dict = v.request_dict;
  pending_dict = v.pending_dict;
  job_dict = v.job_dict;
  pending_dicts = v.pending_dicts;
}

-- A new job that gets its shards leases each, and one that does not leaves every count as it was.
pub pin_job_shards-Inv :
    (e : Siblings) (job : ℕ) (shards : List ℕ) (ix : Index)
    → Inv ix
    → lookup job ix.job_shards ≡ none
    → Inv (pin_job_shards e job shards ix).0
unfolding pin_job_shards
pin_job_shards-Inv e job shards ix v new =
    let (l, ok) = pin_shards e ix.evicting [] shards ix.locks in
    let fine = pin_shards-LocksOk e ix.evicting [] shards ix.locks v.locks_ok in
    let same = pin_shards-eviction_fds e ix.evicting [] shards ix.locks in
    let counts = λ (s : ℕ). count-pin_shards e ix.evicting [] shards s ix.locks in
    elim (Bool-cases ok) [
      | inr failed ↦ rw failed (
          same_counts-Inv l ix v fine same
            (λ s. unfold occurrences in ground (arith, failed, counts s)))
      | inl got ↦ rw got (elim (Bool-cases (meets shards ix.evicting)) [
        | inl met ↦ rw met (
            same_counts-Inv (release_all shards l) ix v (release_all-LocksOk shards l fine)
              (release_all-eviction_fds shards l ∙ same)
              (λ s. ground (arith, got, counts s, count-release_all shards s l)))
        | inr clear ↦ rw clear (record {
          balanced = λ s. ground (
            arith,
            got,
            counts s,
            v.balanced s,
            total-put (occurrences s) job shards ix.job_shards,
          );
          locks_ok = fine;
          evicting_locked = λ s. rw same (v.evicting_locked s);
          request_dict = v.request_dict;
          pending_dict = v.pending_dict;
          job_dict = put-IsDict job shards ix.job_shards v.job_dict;
          pending_dicts = v.pending_dicts;
        })
      ])
    ]

pub pin_job-Inv :
    (e : Siblings) (job : ℕ) (paths : List (Option ℕ)) (ix : Index)
    → Inv ix
    → lookup job ix.job_shards ≡ none
    → Inv (pin_job e job paths ix).0
unfolding pin_job
pin_job-Inv e job paths ix v new = elim (Option-cases (resolve_all paths)) [
  | inl bad ↦ rw (bad, pin_job) v
  | inr (shards, good) ↦ rw (good, pin_job) (pin_job_shards-Inv e job shards ix v new)
]

pub release_job-Inv : (job : ℕ) (ix : Index) → Inv ix → Inv (release_job job ix)
unfolding release_job occurrences
release_job-Inv job ix v =
    let held = get_or (lookup job ix.job_shards) [] in
    record {
      balanced = λ s. ground (
        arith,
        v.balanced s,
        count-release_all held s ix.locks,
        total-del (occurrences s) job ix.job_shards v.job_dict,
      );
      locks_ok = release_all-LocksOk held ix.locks v.locks_ok;
      evicting_locked = λ s. rw (release_all-eviction_fds held ix.locks) (v.evicting_locked s);
      request_dict = v.request_dict;
      pending_dict = v.pending_dict;
      job_dict = del-IsDict job ix.job_shards v.job_dict;
      pending_dicts = v.pending_dicts;
    }
