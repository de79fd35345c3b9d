-- ===== src/ShardLeases/Counts.antt =====
-- How the counts of shard locks move, and the locks that agree with them.
use deepseek_v4_flash_mi300x.Prelude.{
  ℕ, ◌+◌, ◌-◌, ◌≤◌, ◌≡◌, refl, ◌∙◌, true, List, [], ◌∷◌, ltb, ◌==◌, if◌then◌else◌, get_or,
  Bool-cases, inl, inr, mem, mem-add, mem-discard, arith,
}
use deepseek_v4_flash_mi300x.Prelude.Map.{Map, lookup, lookup-put, lookup-del}
use deepseek_v4_flash_mi300x.Prelude.Totals.{occurrences, IsDict, put-IsDict, del-IsDict}
use deepseek_v4_flash_mi300x.ShardLeases.{
  Siblings, Locks, count, acquire_shared, release_shared, release_all, acquire_exclusive,
  release_exclusive, drop_one, drop_lock, drop_pending,
}

abbrev pub at : ℕ → ℕ → ℕ
at x s = if x == s then 1 else 0

pub count-acquire_shared :
    (e : Siblings) (x s : ℕ) (l : Locks)
    → count s (acquire_shared e x l).0
      ≡ count s l + (if (acquire_shared e x l).1 then at x s else 0)
unfolding acquire_shared
count-acquire_shared e x s l = ground (
  arith,
  lookup-put x s (count x l + 1) l.shared_lock_counts,
  lookup-put x s 1 l.shared_lock_counts,
)

pub count-release_shared : (x s : ℕ) (l : Locks) → count s (release_shared x l) ≡ count s l - at x s
unfolding release_shared
count-release_shared x s l = ground (
  arith,
  lookup-put x s (count x l - 1) l.shared_lock_counts,
  lookup-del x s l.shared_lock_counts,
)

pub count-release_all :
    (xs : List ℕ) (s : ℕ) (l : Locks) → count s (release_all xs l) ≡ count s l - occurrences s xs
unfolding release_all occurrences
count-release_all [] s l = omega arith
count-release_all (x ∷ xs) s l =
    ground (arith, count-release_all xs s (release_shared x l), count-release_shared x s l)

-- The descriptors are those of the counted shards, and a shard that is locked for eviction is not
-- also locked for a lease.
pub record LocksOk (l : Locks) : Type 0 where
  pub counted : (s : ℕ) → mem s l.shared_lock_fds ≡ ltb 0 (count s l)
  pub alone : (s : ℕ) → mem s l.eviction_lock_fds ≡ true → count s l ≡ 0

pub acquire_shared-LocksOk :
    (e : Siblings) (x : ℕ) (l : Locks) → LocksOk l → LocksOk (acquire_shared e x l).0
unfolding acquire_shared
acquire_shared-LocksOk e x l v = record {
  counted = λ s. ground (
    arith,
    v.counted s,
    mem-add x s l.shared_lock_fds,
    lookup-put x s (count x l + 1) l.shared_lock_counts,
    lookup-put x s 1 l.shared_lock_counts,
  );
  alone = λ s h. ground (
    arith,
    v.alone s,
    v.alone x,
    lookup-put x s (count x l + 1) l.shared_lock_counts,
    lookup-put x s 1 l.shared_lock_counts,
  );
}

pub release_shared-LocksOk : (x : ℕ) (l : Locks) → LocksOk l → LocksOk (release_shared x l)
unfolding release_shared
release_shared-LocksOk x l v = record {
  counted = λ s. ground (
    arith,
    v.counted s,
    mem-discard x s l.shared_lock_fds,
    lookup-put x s (count x l - 1) l.shared_lock_counts,
    lookup-del x s l.shared_lock_counts,
  );
  alone = λ s h. ground (
    arith,
    v.alone s,
    lookup-put x s (count x l - 1) l.shared_lock_counts,
    lookup-del x s l.shared_lock_counts,
  );
}

pub release_all-LocksOk : (xs : List ℕ) (l : Locks) → LocksOk l → LocksOk (release_all xs l)
unfolding release_all
release_all-LocksOk [] l v = v
release_all-LocksOk (x ∷ xs) l v =
    release_all-LocksOk xs (release_shared x l) (release_shared-LocksOk x l v)

pub acquire_exclusive-LocksOk :
    (e : Siblings) (x : ℕ) (l : Locks) → LocksOk l → LocksOk (acquire_exclusive e x l).0
unfolding acquire_exclusive
acquire_exclusive-LocksOk e x l v = record {
  counted = λ s. ground (arith, v.counted s);
  alone = λ s h. ground (arith, v.alone s, v.counted s, mem-add x s l.eviction_lock_fds);
}

pub release_exclusive-LocksOk : (x : ℕ) (l : Locks) → LocksOk l → LocksOk (release_exclusive x l)
unfolding release_exclusive
release_exclusive-LocksOk x l v = record {
  counted = v.counted;
  alone = λ s h. ground (arith, v.alone s, mem-discard x s l.eviction_lock_fds);
}

-- The pending counts of one request and the locks move together.
abbrev pub weight : ℕ → Map ℕ → ℕ
weight s pending = get_or (lookup s pending) 0

weight-drop_one : (x s : ℕ) (p : Map ℕ) → weight s (drop_one x p) ≡ weight s p - at x s
unfolding drop_one
weight-drop_one x s p = ground (arith, lookup-put x s (weight x p - 1) p, lookup-del x s p)

count-drop_lock :
    (x s : ℕ) (p : Map ℕ) (l : Locks)
    → count s (drop_lock x p l) ≡ count s l - (if weight x p == 0 then 0 else at x s)
unfolding drop_lock
count-drop_lock x s p l = ground (arith, count-release_shared x s l)

pub count-drop_pending :
    (xs : List ℕ) (s : ℕ) (p : Map ℕ) (l : Locks)
    → weight s p ≤ count s l
    → let (p', l') = drop_pending xs p l in
      (count s l' + weight s p ≡ count s l + weight s p') × (weight s p' ≤ weight s p)
unfolding drop_pending
count-drop_pending [] s p l h = omega arith
count-drop_pending (x ∷ xs) s p l h = ground (
  arith,
  weight-drop_one x s p,
  count-drop_lock x s p l,
  count-drop_pending xs s (drop_one x p) (drop_lock x p l),
)

drop_lock-LocksOk : (x : ℕ) (p : Map ℕ) (l : Locks) → LocksOk l → LocksOk (drop_lock x p l)
unfolding drop_lock
drop_lock-LocksOk x p l v = elim (Bool-cases (weight x p == 0)) [
  | inl e ↦ rw e v
  | inr e ↦ rw e (release_shared-LocksOk x l v)
]

pub drop_pending-LocksOk :
    (xs : List ℕ) (p : Map ℕ) (l : Locks) → LocksOk l → LocksOk (drop_pending xs p l).1
unfolding drop_pending
drop_pending-LocksOk [] p l v = v
drop_pending-LocksOk (x ∷ xs) p l v =
    drop_pending-LocksOk xs (drop_one x p) (drop_lock x p l) (drop_lock-LocksOk x p l v)

-- Leases leave the exclusive locks alone.
pub release_shared-eviction_fds :
    (x : ℕ) (l : Locks) → (release_shared x l).eviction_lock_fds ≡ l.eviction_lock_fds
unfolding release_shared
release_shared-eviction_fds x l = ground arith

pub release_all-eviction_fds :
    (xs : List ℕ) (l : Locks) → (release_all xs l).eviction_lock_fds ≡ l.eviction_lock_fds
unfolding release_all
release_all-eviction_fds [] l = refl
release_all-eviction_fds (x ∷ xs) l =
    release_all-eviction_fds xs (release_shared x l) ∙ release_shared-eviction_fds x l

pub acquire_shared-eviction_fds :
    (e : Siblings) (x : ℕ) (l : Locks)
    → (acquire_shared e x l).0.eviction_lock_fds ≡ l.eviction_lock_fds
unfolding acquire_shared
acquire_shared-eviction_fds e x l = ground arith

pub drop_pending-eviction_fds :
    (xs : List ℕ) (p : Map ℕ) (l : Locks)
    → (drop_pending xs p l).1.eviction_lock_fds ≡ l.eviction_lock_fds
unfolding drop_pending drop_lock
drop_pending-eviction_fds [] p l = refl
drop_pending-eviction_fds (x ∷ xs) p l =
    drop_pending-eviction_fds xs (drop_one x p) (drop_lock x p l)
    ∙ ground (arith, release_shared-eviction_fds x l)

drop_one-IsDict : (x : ℕ) (p : Map ℕ) → IsDict p → IsDict (drop_one x p)
unfolding drop_one
drop_one-IsDict x p d = elim (Bool-cases (weight x p == 0)) [
  | inl idle ↦ rw idle d
  | inr held ↦ rw held (elim (Bool-cases (ltb 1 (weight x p))) [
    | inl many ↦ rw many (put-IsDict x (weight x p - 1) p d)
    | inr one ↦ rw one (del-IsDict x p d)
  ])
]

pub drop_pending-IsDict :
    (xs : List ℕ) (p : Map ℕ) (l : Locks) → IsDict p → IsDict (drop_pending xs p l).0
unfolding drop_pending
drop_pending-IsDict [] p l d = d
drop_pending-IsDict (x ∷ xs) p l d =
    drop_pending-IsDict xs (drop_one x p) (drop_lock x p l) (drop_one-IsDict x p d)
