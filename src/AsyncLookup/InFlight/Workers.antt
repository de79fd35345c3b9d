-- ===== src/AsyncLookup/InFlight/Workers.antt =====
-- The workers forget no unresolved key, if each batch is answered key by key.
use deepseek_v4_flash_mi300x.Prelude.{
  ◌≤◌, ℕ, zero, suc, ◌≡◌, refl, sym, ap, ◌∙◌, Bool, true, false, ◌||◌, Option, none, some, List, [],
  ◌∷◌, ◌++◌, length, Option-cases, List-cases, inl, inr, mem, arith,
}
use deepseek_v4_flash_mi300x.AsyncLookup.{Item, Manager}
use deepseek_v4_flash_mi300x.AsyncLookup.Workers.{
  active_items, worker_take, all_misses, wanted_results, hits_of, pick, publish, worker_finish,
}
use deepseek_v4_flash_mi300x.AsyncLookup.InFlight.{
  InvWith, is_on_its_way, has_item, in_batches, has_result, in_results, in_batches-append,
  in_results-append,
}

-- an item whose token is set stays in its batch
has_item-active_items :
    (k t : ℕ) (m : Manager) (items : List Item)
    → mem t m.cleared ≡ false
    → has_item k t (active_items m items) ≡ has_item k t items
unfolding has_item active_items
has_item-active_items k t m [] h = refl
has_item-active_items k t m (i ∷ items) h = ground (arith, has_item-active_items k t m items h)

-- The batches may be moved about, as long as the items with a set token stay.
pub moved-InvWith :
    (extra extra' : ℕ → ℕ → Bool) (m m' : Manager)
    → m'.lookup_state ≡ m.lookup_state
    → m'.cleared ≡ m.cleared
    → m'.next_token ≡ m.next_token
    → m'.max_keys_per_batch ≡ m.max_keys_per_batch
    → (length m.lookup_queue ≤ m.max_pending_batches
        → length m'.lookup_queue ≤ m'.max_pending_batches)
    → ((k t : ℕ)
        → mem t m.cleared ≡ false
        → is_on_its_way m k t || extra k t ≡ true
        → is_on_its_way m' k t || extra' k t ≡ true)
    → InvWith extra m
    → InvWith extra' m'
moved-InvWith extra extra' m m' a b c d fit keep v = record {
  positive = rw d v.positive;
  fits = fit v.fits;
  live = rw (a, b) v.live;
  below = rw (a, c) v.below;
  cleared_below = rw (b, c) v.cleared_below;
  own = rw a v.own;
  not_lost =
      λ k s l u. let l' = (rw a at l) in keep k s.active (v.live k s l') (v.not_lost k s l' u);
}

-- what is on its way before and after the oldest batch is taken
took_batch :
    (m : Manager) (b active : List Item) (queue : List (List Item)) (k t : ℕ)
    → m.lookup_queue ≡ b ∷ queue
    → active_items m b ≡ active
    → mem t m.cleared ≡ false
    → in_batches k t m.lookup_queue ≡ (has_item k t active || in_batches k t queue)
unfolding in_batches
took_batch m b active queue k t next kept h =
    ap (in_batches k t) next
    ∙ ap (λ x. x || in_batches k t queue)
        (sym (has_item-active_items k t m b h) ∙ ap (has_item k t) kept)

pub worker_take-InvWith :
    (extra : ℕ → ℕ → Bool) (m : Manager) → InvWith extra m → InvWith extra (worker_take m)
unfolding worker_take has_item in_batches
worker_take-InvWith extra m v = elim (List-cases m.lookup_queue) [
  | inl idle ↦ rw (idle, worker_take) v
  | inr (b, queue, next) ↦ elim (List-cases (active_items m b)) [
    | inl cancelled ↦
        rw (next, worker_take, cancelled)
          (moved-InvWith extra extra m (record m { lookup_queue = queue }) refl refl refl refl
            (λ f. ground arith)
            (λ k t h w. ground (arith, took_batch m b [] queue k t next cancelled h)) v)
    | inr (i, items, kept) ↦
        rw (next, worker_take, kept)
          (moved-InvWith extra extra m
            (record m { lookup_queue = queue; running = m.running ++ (i ∷ items) ∷ [] }) refl refl
            refl refl (λ f. ground arith)
            (λ k t h w. ground (
              arith,
              took_batch m b (i ∷ items) queue k t next kept h,
              in_batches-append k t m.running ((i ∷ items) ∷ []),
            ))
            v)
  ]
]

-- `batch_lookup` raises, or answers for each key
abbrev pub Answers : ℕ → Option (List Bool) → Type 0
Answers n none = Unit {0}
Answers n (some hits) = length hits ≡ n

length-all_misses : (items : List Item) → length (all_misses items) ≡ length items
length-all_misses [] = omega arith
length-all_misses (i ∷ items) = omega (arith, length-all_misses items)

length-hits_of :
    (items : List Item) (answer : Option (List Bool))
    → Answers (length items) answer
    → length (hits_of items answer) ≡ length items
length-hits_of items none h = length-all_misses items
length-hits_of items (some hits) h = h

has_result-wanted :
    (k t : ℕ) (m : Manager) (items : List Item) (hits : List Bool)
    → mem t m.cleared ≡ false
    → length hits ≡ length items
    → has_item k t items ≡ true
    → has_result k (wanted_results m items hits) ≡ true
unfolding has_item has_result wanted_results
has_result-wanted k t m [] hits h e p = absurd (ground arith)
has_result-wanted k t m (i ∷ items) [] h e p = absurd (omega arith)
has_result-wanted k t m (i ∷ items) (hit ∷ hits) h e p =
    let shorter : length hits ≡ length items = omega arith in
    ground (arith, has_result-wanted k t m items hits h shorter)

pick_all :
    (n k t : ℕ) (bs : List (List Item)) (items : List Item) (others : List (List Item))
    → pick n bs ≡ some (items, others)
    → in_batches k t bs ≡ (has_item k t items || in_batches k t others)
unfolding pick in_batches
pick_all n k t [] items others h = absurd (ground arith)
pick_all zero k t (b ∷ bs) items others h = ground arith
pick_all (suc n) k t (b ∷ bs) items others h = elim (Option-cases (pick n bs)) [
  | inl gone ↦ absurd (ground arith)
  | inr ((c, cs), found) ↦ ground (arith, pick_all n k t bs c cs found)
]

publish-InvWith :
    (extra : ℕ → ℕ → Bool) (m : Manager) (others : List (List Item)) (rs : List (ℕ × Bool))
    → ((k t : ℕ)
        → mem t m.cleared ≡ false
        → in_batches k t m.running ≡ true
        → has_result k rs || in_batches k t others ≡ true)
    → InvWith extra m
    → InvWith extra (publish (record m { running = others }) rs)
unfolding has_result in_results
publish-InvWith extra m others [] keep v =
    moved-InvWith extra extra m (record m { running = others }) refl refl refl refl
      (λ f. ground arith) (λ k t h w. ground (arith, keep k t h)) v
publish-InvWith extra m others (r ∷ rs) keep v =
    moved-InvWith extra extra m
      (record m { running = others; pending_results = m.pending_results ++ (r ∷ rs) ∷ [] }) refl
      refl refl refl (λ f. ground arith)
      (λ k t h w. ground (arith, keep k t h, in_results-append k m.pending_results ((r ∷ rs) ∷ [])))
      v

-- what the `n`-th running batch is asked
abbrev pub asked : ℕ → List (List Item) → ℕ
asked n bs = elim (pick n bs) [ none ↦ 0 | some (items, others) ↦ length items ]

pub worker_finish-InvWith :
    (extra : ℕ → ℕ → Bool) (n : ℕ) (answer : Option (List Bool)) (m : Manager)
    → Answers (asked n m.running) answer
    → InvWith extra m
    → InvWith extra (worker_finish n answer m)
unfolding worker_finish
worker_finish-InvWith extra n answer m full v = elim (Option-cases (pick n m.running)) [
  | inl gone ↦ rw (gone, worker_finish) v
  | inr ((items, others), found) ↦
      let full' : Answers (length items) answer = (rw (found, asked) at full) in
      let rs = wanted_results m items (hits_of items answer) in
      rw (found, worker_finish)
        (publish-InvWith extra m others rs
          (λ k t h w. ground (
            arith,
            pick_all n k t m.running items others found,
            has_result-wanted k t m items (hits_of items answer) h
                (length-hits_of items answer full'),
          ))
          v)
]
