-- ===== src/AsyncLookup/InFlight/Flushes.antt =====
-- A flush forgets no unresolved key: it queues each item or answers its key with a miss.
use deepseek_v4_flash_mi300x.Prelude.{
  length-append, ℕ, zero, suc, ◌+◌, ◌<◌, ◌≡◌, refl, sym, ap, ◌∙◌, Bool, true, false, ◌&&◌, ◌||◌,
  List, [], ◌∷◌, ◌++◌, length, ltb, ◌==◌, Bool-cases, inl, inr, arith,
}
use deepseek_v4_flash_mi300x.AsyncLookup.{Item, Manager, is_set, set_result}
use deepseek_v4_flash_mi300x.AsyncLookup.Workers.{worker_take}
use deepseek_v4_flash_mi300x.AsyncLookup.Flush.{
  drop_items, put_batch, takes, put_batches, chunks_of, flush, head_or_zero, tail,
}
use deepseek_v4_flash_mi300x.AsyncLookup.Flush.RoundRobin.{concat, by_req}
use deepseek_v4_flash_mi300x.AsyncLookup.Flush.Order.{chunks_of-by_req}
use deepseek_v4_flash_mi300x.AsyncLookup.InFlight.{
  InvWith, Inv, none_else, has_item, in_batches, has_item-append, in_batches-append,
}
use deepseek_v4_flash_mi300x.AsyncLookup.InFlight.Results.{set_result-InvWith}
use deepseek_v4_flash_mi300x.AsyncLookup.InFlight.Workers.{moved-InvWith, worker_take-InvWith}

takes-InvWith :
    (extra : ℕ → ℕ → Bool) (n : ℕ) (m : Manager) → InvWith extra m → InvWith extra (takes n m)
takes-InvWith extra zero m v = v
takes-InvWith extra (suc n) m v =
    takes-InvWith extra n (worker_take m) (worker_take-InvWith extra m v)

drop_items-InvWith :
    (extra : ℕ → ℕ → Bool) (items : List Item) (m : Manager)
    → InvWith (λ k t. has_item k t items || extra k t) m
    → InvWith extra (drop_items items m)
unfolding drop_items has_item
drop_items-InvWith extra [] m v = v
drop_items-InvWith extra (i ∷ items) m v = elim (Bool-cases (is_set m i.token)) [
  | inl wanted ↦
      rw (wanted, drop_items)
        (drop_items-InvWith extra items (set_result i.key false m) (
          set_result-InvWith (λ k t. has_item k t (i ∷ items) || extra k t)
            (λ k t. has_item k t items || extra k t) i.key false m (λ k t d e. ground arith) v))
  | inr cancelled ↦
      rw (cancelled, drop_items)
        (drop_items-InvWith extra items m (
          moved-InvWith (λ k t. has_item k t (i ∷ items) || extra k t)
            (λ k t. has_item k t items || extra k t) m m refl refl refl refl (λ f. ground arith)
            (λ k t h w. ground arith) v))
]

put_batch-InvWith :
    (extra : ℕ → ℕ → Bool) (batch : List Item) (m : Manager)
    → InvWith (λ k t. has_item k t batch || extra k t) m
    → InvWith extra (put_batch batch m)
unfolding put_batch in_batches
put_batch-InvWith extra batch m v =
    elim (Bool-cases (ltb (length m.lookup_queue) m.max_pending_batches)) [
      | inl room ↦
          rw (room, put_batch)
            (moved-InvWith (λ k t. has_item k t batch || extra k t) extra m
              (record m { lookup_queue = m.lookup_queue ++ batch ∷ [] }) refl refl refl refl
              (λ f. ground (arith, length-append m.lookup_queue (batch ∷ [])))
              (λ k t h w. ground (arith, in_batches-append k t m.lookup_queue (batch ∷ []))) v)
      | inr full ↦
          let dropped = drop_items batch m in
          rw (full, put_batch)
            (moved-InvWith extra extra dropped
              (record dropped { dropped_keys_delta = dropped.dropped_keys_delta + length batch })
              refl refl refl refl (λ f. ground arith) (λ k t h w. w)
              (drop_items-InvWith extra batch m v))
    ]

put_batches-Inv :
    (schedule : List ℕ) (batches : List (List Item)) (m : Manager)
    → InvWith (λ k t. in_batches k t batches) m
    → Inv (put_batches schedule batches m)
unfolding put_batches in_batches
put_batches-Inv schedule [] m v = v
put_batches-Inv schedule (b ∷ batches) m v =
    let taken = takes (head_or_zero schedule) m in
    put_batches-Inv (tail schedule) batches (put_batch b taken) (
      put_batch-InvWith (λ k t. in_batches k t batches) b taken
        (takes-InvWith (λ k t. in_batches k t (b ∷ batches)) (head_or_zero schedule) m v))

has_item-concat : (k t : ℕ) (bs : List (List Item)) → has_item k t (concat bs) ≡ in_batches k t bs
unfolding has_item in_batches
has_item-concat k t [] = refl
has_item-concat k t (b ∷ bs) =
    ground (arith, has_item-append k t b (concat bs), has_item-concat k t bs)

-- an item is found among those of its request
found_by_req :
    (k t : ℕ) (items : List Item)
    → has_item k t items ≡ true
    → (r : ℕ) × (has_item k t (by_req r items) ≡ true)
unfolding has_item by_req
found_by_req k t [] h = absurd (ground arith)
found_by_req k t (i ∷ items) h = elim (Bool-cases (i.key == k && i.token == t)) [
  | inl here ↦ (i.req, ground arith)
  | inr later ↦ let (r, found) = found_by_req k t items (ground arith) in (r, ground arith)
]

by_req_found :
    (k t r : ℕ) (items : List Item)
    → has_item k t (by_req r items) ≡ true
    → has_item k t items ≡ true
unfolding has_item by_req
by_req_found k t r [] h = h
by_req_found k t r (i ∷ items) h = ground (arith, by_req_found k t r items)

chunks_keep :
    (k t size : ℕ) (items : List Item)
    → 0 < size
    → has_item k t items ≡ true
    → in_batches k t (chunks_of size items) ≡ true
chunks_keep k t size items p h =
    let (r, found) = found_by_req k t items h in
    let same = chunks_of-by_req r size items p in
    sym (has_item-concat k t (chunks_of size items))
    ∙ by_req_found k t r (concat (chunks_of size items)) (ap (has_item k t) same ∙ found)

pub flush-Inv : (schedule : List ℕ) (m : Manager) → Inv m → Inv (flush schedule m)
unfolding flush has_item
flush-Inv schedule m v =
    let chunks = chunks_of m.max_keys_per_batch m.lookup_batch in
    let m' = record m { need_to_drain = true; lookup_batch = [] } in
    put_batches-Inv schedule chunks m' (
      moved-InvWith none_else (λ k t. in_batches k t chunks) m m' refl refl refl refl
        (λ f. ground arith)
        (λ k t h w. ground (arith, chunks_keep k t m.max_keys_per_batch m.lookup_batch v.positive))
        v)
