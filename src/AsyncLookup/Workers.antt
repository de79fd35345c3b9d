-- ===== src/AsyncLookup/Workers.antt =====
-- patches/async_lookup.bounded.py, `_worker`: a worker takes a batch and, when `batch_lookup` has
-- answered, publishes what is still wanted.
use deepseek_v4_flash_mi300x.Prelude.{
  ℕ, zero, suc, Bool, false, Option, none, some, List, [], ◌∷◌, ◌++◌, if◌then◌else◌,
}
use deepseek_v4_flash_mi300x.AsyncLookup.{Item, Manager, is_set}

unfoldable pub active_items : Manager → List Item → List Item
active_items m [] = []
active_items m (item ∷ items) =
    let rest = active_items m items in if is_set m item.token then item ∷ rest else rest

-- the loop's first half: the oldest batch, less what has been cancelled
unfoldable pub worker_take : Manager → Manager
worker_take m = elim m.lookup_queue [
  | [] ↦ m
  | batch ∷ queue ↦ elim (active_items m batch) [
    | [] ↦ record m { lookup_queue = queue }
    | item ∷ items ↦ record m { lookup_queue = queue; running = m.running ++ (item ∷ items) ∷ [] }
  ]
]

abbrev pub all_misses : List Item → List Bool
all_misses [] = []
all_misses (item ∷ items) = false ∷ all_misses items

-- the hits in the order of the items, as long as both last
unfoldable pub wanted_results : Manager → List Item → List Bool → List (ℕ × Bool)
wanted_results m (item ∷ items) (hit ∷ hits) =
    let rest = wanted_results m items hits in
    if is_set m item.token then (item.key, hit) ∷ rest else rest
wanted_results m _ _ = []

abbrev pub publish : Manager → List (ℕ × Bool) → Manager
publish m [] = m
publish m (r ∷ results) = record m { pending_results = m.pending_results ++ (r ∷ results) ∷ [] }

abbrev pub hits_of : List Item → Option (List Bool) → List Bool
hits_of items none = all_misses items
hits_of items (some hits) = hits

-- the `n`-th running batch and the others
unfoldable pub pick : ℕ → List (List Item) → Option (List Item × List (List Item))
pick n [] = none
pick zero (b ∷ bs) = some (b, bs)
pick (suc n) (b ∷ bs) = elim (pick n bs) [ none ↦ none | some (c, cs) ↦ some (c, b ∷ cs) ]

-- the second half, for the `n`-th running batch; `none` is an exception of `batch_lookup`
unfoldable pub worker_finish : ℕ → Option (List Bool) → Manager → Manager
worker_finish n answer m = elim (pick n m.running) [
  | none ↦ m
  | some (items, others) ↦
      publish (record m { running = others }) (wanted_results m items (hits_of items answer))
]
