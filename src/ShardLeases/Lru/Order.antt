-- ===== src/ShardLeases/Lru/Order.antt =====
-- The shard that is chosen for eviction: idle, and the least recently used that can be locked.
use deepseek_v4_flash_mi300x.Prelude.{
  refl, Option, ℕ, ◌≡◌, subst, Bool, true, false, not, ◌&&◌, ◌||◌, none, some, List, [], ◌∷◌, ◌==◌,
  Bool-cases, Option-cases, inl, inr, mem, All, arith,
}
use deepseek_v4_flash_mi300x.Prelude.Map.{Map, lookup}
use deepseek_v4_flash_mi300x.Prelude.Totals.{IsDict}
use deepseek_v4_flash_mi300x.ShardLeases.{Siblings, Locks, Index, acquire_exclusive}
use deepseek_v4_flash_mi300x.ShardLeases.Lru.{
  is_pinned, earlier, insert_by_age, candidates, first_lockable, begin_oldest_eviction,
}
use deepseek_v4_flash_mi300x.ShardLeases.Balance.{Inv, holders}
use deepseek_v4_flash_mi300x.ShardLeases.Balance.Evictions.{holders-is_pinned}

abbrev IsSorted : List (ℕ × ℕ) → Type 0
IsSorted [] = Unit {0}
IsSorted (x ∷ xs) = All (λ y. earlier x y ≡ true) xs × IsSorted xs

earlier_trans : (x y z : ℕ × ℕ) → earlier x y ≡ true → earlier y z ≡ true → earlier x z ≡ true
earlier_trans x y z h k = ground arith

earlier_total : (x y : ℕ × ℕ) → earlier x y ≡ false → earlier y x ≡ true
earlier_total x y h = ground arith

earlier-All :
    (x y : ℕ × ℕ) (zs : List (ℕ × ℕ))
    → earlier x y ≡ true
    → All (λ z. earlier y z ≡ true) zs
    → All (λ z. earlier x z ≡ true) zs
earlier-All x y [] h a = tt
earlier-All x y (z ∷ zs) h a = (earlier_trans x y z h a.0, earlier-All x y zs h a.1)

All-insert_by_age {ℓ} :
    (P : ℕ × ℕ → Type ℓ) (x : ℕ × ℕ) (ys : List (ℕ × ℕ))
    → P x
    → All P ys
    → All P (insert_by_age x ys)
unfolding insert_by_age
All-insert_by_age P x [] p a = (p, tt)
All-insert_by_age P x (y ∷ ys) p a = elim (Bool-cases (earlier x y)) [
  | inl first ↦ rw first (p, a)
  | inr later ↦ rw later (a.0, All-insert_by_age P x ys p a.1)
]

insert_by_age-IsSorted :
    (x : ℕ × ℕ) (ys : List (ℕ × ℕ)) → IsSorted ys → IsSorted (insert_by_age x ys)
unfolding insert_by_age
insert_by_age-IsSorted x [] s = (tt, tt)
insert_by_age-IsSorted x (y ∷ ys) s = elim (Bool-cases (earlier x y)) [
  | inl first ↦ rw first ((first, earlier-All x y ys first s.0), s)
  | inr later ↦ rw later (
    All-insert_by_age (λ z. earlier y z ≡ true) x ys (earlier_total x y later) s.0,
    insert_by_age-IsSorted x ys s.1,
  )
]

from_All-insert_by_age {ℓ} :
    (P : ℕ × ℕ → Type ℓ) (x : ℕ × ℕ) (ys : List (ℕ × ℕ))
    → All P (insert_by_age x ys)
    → P x × All P ys
unfolding insert_by_age
from_All-insert_by_age P x [] a = a
from_All-insert_by_age P x (y ∷ ys) a = elim (Bool-cases (earlier x y)) [
  | inl first ↦ let b : All P (x ∷ y ∷ ys) = rw (first, insert_by_age) at a in (b.0, b.1)
  | inr later ↦
      let b : All P (y ∷ insert_by_age x ys) = rw (later, insert_by_age) at a in
      let (px, rest) = from_All-insert_by_age P x ys b.1 in (px, (b.0, rest))
]

abbrev is_idle : Index → ℕ → Bool
is_idle ix s = not (is_pinned s ix) && not (mem s ix.evicting)

candidates-IsSorted : (ix : Index) (m : Map ℕ) → IsSorted (candidates ix m)
unfolding candidates
candidates-IsSorted ix [] = tt
candidates-IsSorted ix ((s, u) ∷ m) = elim (Bool-cases (is_idle ix s)) [
  | inl idle ↦ rw idle (insert_by_age-IsSorted (u, s) (candidates ix m) (candidates-IsSorted ix m))
  | inr busy ↦ rw busy (candidates-IsSorted ix m)
]

-- every idle shard of the map is a candidate
candidates_complete {ℓ} :
    (P : ℕ × ℕ → Type ℓ) (ix : Index) (m : Map ℕ) (t u : ℕ)
    → All P (candidates ix m)
    → lookup t m ≡ some u
    → is_idle ix t ≡ true
    → P (u, t)
unfolding candidates lookup
candidates_complete P ix [] t u a h i = absurd (ground arith)
candidates_complete P ix ((s, v) ∷ m) t u a h i = elim (Bool-cases (is_idle ix s)) [
  | inl idle ↦
      let b : All P (insert_by_age (v, s) (candidates ix m)) = rw (idle, candidates) at a in
      let (here, rest) = from_All-insert_by_age P (v, s) (candidates ix m) b in
      elim (Bool-cases (s == t)) [
        | inl same ↦ let e : ◌≡◌ {A = ℕ × ℕ} (v, s) (u, t) = ground arith in subst P e here
        | inr other ↦ candidates_complete P ix m t u rest (ground arith) i
      ]
  | inr busy ↦
      let b : All P (candidates ix m) = rw (busy, candidates) at a in
      elim (Bool-cases (s == t)) [
        | inl same ↦
            let e : s ≡ t = ground arith in let clash = rw e at busy in absurd (ground arith)
        | inr other ↦ candidates_complete P ix m t u b (ground arith) i
      ]
]

All-map {ℓ κ} :
    (P : ℕ × ℕ → Type ℓ) (Q : ℕ × ℕ → Type κ) (xs : List (ℕ × ℕ))
    → ((x : ℕ × ℕ) → P x → Q x)
    → All P xs
    → All Q xs
All-map P Q [] f a = tt
All-map P Q (x ∷ xs) f a = (f x a.0, All-map P Q xs f a.1)

-- What a candidate is: an idle shard with its time of last use.
abbrev IsCandidate : Index → Map ℕ → ℕ × ℕ → Type 0
IsCandidate ix m x = (lookup x.1 m ≡ some x.0) × (is_idle ix x.1 ≡ true)

candidates_sound : (ix : Index) (m : Map ℕ) → IsDict m → All (IsCandidate ix m) (candidates ix m)
unfolding candidates lookup
candidates_sound ix [] d = tt
candidates_sound ix ((s, v) ∷ m) d =
    let rest =
      All-map (IsCandidate ix m) (IsCandidate ix ((s, v) ∷ m)) (candidates ix m)
        (λ x h. (ground (arith, d.0), h.1)) (candidates_sound ix m d.1) in
    elim (Bool-cases (is_idle ix s)) [
      | inl idle ↦ rw idle (
          All-insert_by_age (IsCandidate ix ((s, v) ∷ m)) (v, s) (candidates ix m)
            (ground arith, idle) rest)
      | inr busy ↦ rw busy rest
    ]

abbrev lockable : Siblings → Locks → ℕ × ℕ → Bool
lockable e l x = (acquire_exclusive e x.1 l).1

-- The first that can be locked in a sorted list is the earliest of those that can.
first_lockable_earliest :
    (P : ℕ × ℕ → Type 0) (e : Siblings) (xs : List (ℕ × ℕ)) (l : Locks) {s : ℕ} {l' : Locks}
    → IsSorted xs
    → All P xs
    → first_lockable e xs l ≡ some (s, l')
    → (u : ℕ) × P (u, s) × All (λ y. lockable e l y ≡ true → earlier (u, s) y ≡ true) xs
unfolding first_lockable
first_lockable_earliest P e [] l o a h = absurd (ground arith)
first_lockable_earliest P e ((v, t) ∷ xs) l {s} {l'} o a h =
    elim (Bool-cases (acquire_exclusive e t l).1) [
      | inl got ↦
          let is : t ≡ s = ground arith in
          subst
            (λ z.
              (u : ℕ) × P (u, z)
              × All (λ y. lockable e l y ≡ true → earlier (u, z) y ≡ true) ((v, t) ∷ xs))
            is
            (
              v,
              a.0,
              (
                (λ _. ground arith),
                All-map (λ y. earlier (v, t) y ≡ true)
                    (λ y. lockable e l y ≡ true → earlier (v, t) y ≡ true) xs (λ y k _. k) o.0,
              ),
            )
      | inr missed ↦
          let (u, p, all) =
            first_lockable_earliest P e xs l {s = s} {l' = l'} o.1 a.1 (ground arith) in
          (u, p, (λ can. absurd (ground arith), all))
    ]

first_lockable-none :
    (e : Siblings) (xs : List (ℕ × ℕ)) (l : Locks)
    → first_lockable e xs l ≡ none
    → All (λ y. lockable e l y ≡ false) xs
unfolding first_lockable
first_lockable-none e [] l h = tt
first_lockable-none e ((v, t) ∷ xs) l h =
    let missed : (acquire_exclusive e t l).1 ≡ false = ground arith in
    (missed, first_lockable-none e xs l (ground arith))

-- an idle shard that no other process holds can be locked
lockable_idle :
    (e : Siblings) (ix : Index) (t u : ℕ)
    → Inv ix
    → is_pinned t ix ≡ false
    → mem t ix.evicting ≡ false
    → e.hold t ≡ false
    → lockable e ix.locks (u, t) ≡ true
unfolding acquire_exclusive
lockable_idle e ix t u v i n h =
    ground (arith, holders-is_pinned t ix, v.balanced t, v.evicting_locked t, v.locks_ok.counted t)

begin_found :
    (e : Siblings) (ix : Index) {s : ℕ}
    → (begin_oldest_eviction e ix).1 ≡ some s
    → (l : Locks) × (first_lockable e (candidates ix ix.last_used) ix.locks ≡ some (s, l))
unfolding begin_oldest_eviction
begin_found e ix h = elim (Option-cases (first_lockable e (candidates ix ix.last_used) ix.locks)) [
  | inl idle ↦ absurd (ground arith)
  | inr ((t, l), found) ↦ (l, ground arith)
]

-- with its time of last use, if it has one: in use, or no better a choice than that one
abbrev pub passed_over : Siblings → Index → ℕ × ℕ → ℕ → Option ℕ → Bool
passed_over e ix chosen t none = true
passed_over e ix chosen t (some u) =
    is_pinned t ix || (mem t ix.evicting || (e.hold t || earlier chosen (u, t)))

passed_over_lem :
    (e : Siblings) (ix : Index) (chosen : ℕ × ℕ) (t u : ℕ)
    → Inv ix
    → (not (is_pinned t ix) && not (mem t ix.evicting) ≡ true
        → lockable e ix.locks (u, t) ≡ true
        → earlier chosen (u, t) ≡ true)
    → passed_over e ix chosen t (some u) ≡ true
passed_over_lem e ix chosen t u v first =
    elim (Bool-cases (is_pinned t ix || (mem t ix.evicting || e.hold t))) [
      | inl busy ↦ ground arith
      | inr idle ↦
          let before =
            first (ground arith)
              (lockable_idle e ix t u v (ground arith) (ground arith) (ground arith)) in
          ground arith
    ]

-- In an index whose locks and leases agree, with one time of last use for each shard: a shard
-- that is chosen has a time, no lease of a request, a lookup or a job, and is not being
-- evicted; and any shard with a time that is not pinned, is not being evicted and is not held
-- by another process does not come before it in the order of times of last use (and of names,
-- for equal times).
pub oldest_evicted :
    (e : Siblings) (ix : Index) (s t : ℕ)
    → Inv ix
    → IsDict ix.last_used
    → (begin_oldest_eviction e ix).1 ≡ some s
    → (used : ℕ) × (lookup s ix.last_used ≡ some used)
      × (holders s ix ≡ 0)
      × (mem s ix.evicting ≡ false)
      × (passed_over e ix (used, s) t (lookup t ix.last_used) ≡ true)
oldest_evicted e ix s t v d h =
    let (l, found) = begin_found e ix h in
    let (used, (is, good), all) =
      first_lockable_earliest (IsCandidate ix ix.last_used) e (candidates ix ix.last_used) ix.locks
        (candidates-IsSorted ix ix.last_used) (candidates_sound ix ix.last_used d) found in
    (
      used,
      is,
      holders-is_pinned s ix (ground arith),
      ground arith,
      elim (Option-cases (lookup t ix.last_used)) [
        | inl never ↦ rw never refl
        | inr (u, here) ↦ rw here (
            passed_over_lem e ix (used, s) t u v
              (candidates_complete (λ y. lockable e ix.locks y ≡ true → earlier (used, s) y ≡ true)
                ix ix.last_used t u all here))
      ],
    )

-- In an index whose locks and leases agree, if no shard is chosen, each shard with a time of
-- last use is pinned, is being evicted, or is held by another process.
pub none_evictable :
    (e : Siblings) (ix : Index) (t u : ℕ)
    → Inv ix
    → (begin_oldest_eviction e ix).1 ≡ none
    → lookup t ix.last_used ≡ some u
    → is_pinned t ix || (mem t ix.evicting || e.hold t) ≡ true
unfolding begin_oldest_eviction
none_evictable e ix t u v h here =
    let idle : first_lockable e (candidates ix ix.last_used) ix.locks ≡ none = ground arith in
    let all = first_lockable-none e (candidates ix ix.last_used) ix.locks idle in
    elim (Bool-cases (is_pinned t ix || (mem t ix.evicting || e.hold t))) [
      | inl good ↦ good
      | inr free ↦
          let missed =
            candidates_complete (λ y. lockable e ix.locks y ≡ false) ix ix.last_used t u all here
              (ground arith) in
          let got = lockable_idle e ix t u v (ground arith) (ground arith) (ground arith) in
          absurd (ground arith)
    ]
