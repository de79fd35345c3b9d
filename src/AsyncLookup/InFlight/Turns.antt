-- ===== src/AsyncLookup/InFlight/Turns.antt =====
-- Turns of a worker after a flush, until no batch is left (`_worker`,
-- patches/async_lookup.bounded.py).
use deepseek_v4_flash_mi300x.Prelude.{
  ℕ, zero, suc, ◌+◌, ◌-◌, ◌≤◌, ◌≡◌, refl, ◌∙◌, ap, Bool, true, false, Option, some, List, [], ◌∷◌,
  length, length-append, ltb, ◌==◌, List-cases, Option-cases, Bool-cases, inl, inr, arith,
}
use deepseek_v4_flash_mi300x.Prelude.Map.{lookup, lookup-put}
use deepseek_v4_flash_mi300x.AsyncLookup.{
  LookupState, Item, Manager, is_set, set_result, pending_batches,
}
use deepseek_v4_flash_mi300x.AsyncLookup.Workers.{
  active_items, worker_take, pick, publish, worker_finish,
}
use deepseek_v4_flash_mi300x.AsyncLookup.Flush.{
  drop_items, put_batch, takes, put_batches, flush, head_or_zero, tail,
}
use deepseek_v4_flash_mi300x.AsyncLookup.InFlight.{Inv, none_else}
use deepseek_v4_flash_mi300x.AsyncLookup.InFlight.Workers.{
  worker_take-InvWith, worker_finish-InvWith, Answers, asked,
}

-- what `batch_lookup` says of the items that it is asked for
abbrev pub Backend : Type 0
Backend = List Item → Option (List Bool)

abbrev pub Answering : Backend → Type 0
Answering f = (items : List Item) → Answers (length items) (f items)

abbrev pub first_batch : List (List Item) → List Item
first_batch [] = []
first_batch (b ∷ bs) = b

-- a turn: the oldest batch of the queue is taken, and the oldest batch that was taken is answered
unfoldable pub turn : Backend → Manager → Manager
turn f m = let taken = worker_take m in worker_finish 0 (f (first_batch taken.running)) taken

unfoldable pub turns : Backend → ℕ → Manager → Manager
turns f zero m = m
turns f (suc n) m = turns f n (turn f m)

Answers-first_batch :
    (f : Backend)
    → Answering f
    → (bs : List (List Item)) → Answers (asked 0 bs) (f (first_batch bs))
unfolding pick
Answers-first_batch f a [] = a []
Answers-first_batch f a (b ∷ bs) = a b

turn-Inv : (f : Backend) (m : Manager) → Answering f → Inv m → Inv (turn f m)
unfolding turn
turn-Inv f m a v =
    let taken = worker_take m in
    worker_finish-InvWith none_else 0 (f (first_batch taken.running)) taken
      (Answers-first_batch f a taken.running) (worker_take-InvWith none_else m v)

pub turns-Inv : (f : Backend) (n : ℕ) (m : Manager) → Answering f → Inv m → Inv (turns f n m)
unfolding turns
turns-Inv f zero m a v = v
turns-Inv f (suc n) m a v = turns-Inv f n (turn f m) a (turn-Inv f m a v)

-- after a flush: the next lookup drains, no item waits for a flush, and the key has a state
pub record Flushed (k : ℕ) (m : Manager) : Type 0 where
  pub drains : m.need_to_drain ≡ true
  pub empty : m.lookup_batch ≡ []
  pub known : (st : LookupState) × (lookup k m.lookup_state ≡ some st)

pub set_result-Flushed :
    (k key : ℕ) (value : Bool) (m : Manager) → Flushed k m → Flushed k (set_result key value m)
unfolding set_result
set_result-Flushed k key value m v = elim (Option-cases (lookup key m.lookup_state)) [
  | inl gone ↦ rw (gone, set_result) v
  | inr (st, here) ↦
      let st' : LookupState = record st { result = some value } in
      rw (here, set_result)
        (record {
          drains = v.drains;
          empty = v.empty;
          known = elim (Bool-cases (key == k)) [
            | inl same ↦ (st', ground (arith, lookup-put key k st' m.lookup_state))
            | inr other ↦
                (v.known.0, ground (arith, lookup-put key k st' m.lookup_state, v.known.1))
          ];
        })
]

drop_items-Flushed :
    (k : ℕ) (items : List Item) (m : Manager) → Flushed k m → Flushed k (drop_items items m)
unfolding drop_items
drop_items-Flushed k [] m v = v
drop_items-Flushed k (i ∷ items) m v = elim (Bool-cases (is_set m i.token)) [
  | inl wanted ↦
      rw (wanted, drop_items)
        (drop_items-Flushed k items (set_result i.key false m)
          (set_result-Flushed k i.key false m v))
  | inr cancelled ↦ rw (cancelled, drop_items) (drop_items-Flushed k items m v)
]

-- the queue, the batches that are taken, the results and the counts do not matter
pub same_states :
    (k : ℕ) (m m' : Manager)
    → m'.need_to_drain ≡ m.need_to_drain
    → m'.lookup_batch ≡ m.lookup_batch
    → m'.lookup_state ≡ m.lookup_state
    → Flushed k m
    → Flushed k m'
same_states k m m' a b c v = record {
  drains = a ∙ v.drains;
  empty = b ∙ v.empty;
  known = (v.known.0, ap (lookup k) c ∙ v.known.1);
}

worker_take-Flushed : (k : ℕ) (m : Manager) → Flushed k m → Flushed k (worker_take m)
unfolding worker_take
worker_take-Flushed k m v =
    same_states k m (worker_take m) (ground arith) (ground arith) (ground arith) v

worker_finish-Flushed :
    (k n : ℕ) (answer : Option (List Bool)) (m : Manager)
    → Flushed k m
    → Flushed k (worker_finish n answer m)
unfolding worker_finish
worker_finish-Flushed k n answer m v =
    same_states k m (worker_finish n answer m) (ground arith) (ground arith) (ground arith) v

takes-Flushed : (k n : ℕ) (m : Manager) → Flushed k m → Flushed k (takes n m)
takes-Flushed k zero m v = v
takes-Flushed k (suc n) m v = takes-Flushed k n (worker_take m) (worker_take-Flushed k m v)

put_batch-Flushed :
    (k : ℕ) (batch : List Item) (m : Manager) → Flushed k m → Flushed k (put_batch batch m)
unfolding put_batch
put_batch-Flushed k batch m v =
    elim (Bool-cases (ltb (length m.lookup_queue) m.max_pending_batches)) [
      | inl room ↦ rw (room, put_batch) (same_states k m _ refl refl refl v)
      | inr full ↦
          rw (full, put_batch)
            (same_states k (drop_items batch m) _ refl refl refl (drop_items-Flushed k batch m v))
    ]

put_batches-Flushed :
    (k : ℕ) (schedule : List ℕ) (batches : List (List Item)) (m : Manager)
    → Flushed k m
    → Flushed k (put_batches schedule batches m)
unfolding put_batches
put_batches-Flushed k schedule [] m v = v
put_batches-Flushed k schedule (b ∷ batches) m v =
    put_batches-Flushed k (tail schedule) batches _
      (put_batch-Flushed k b _ (takes-Flushed k (head_or_zero schedule) m v))

pub flush-Flushed :
    (k : ℕ) (schedule : List ℕ) (m : Manager) (st : LookupState)
    → lookup k m.lookup_state ≡ some st
    → Flushed k (flush schedule m)
unfolding flush
flush-Flushed k schedule m st here =
    put_batches-Flushed k schedule _ _ (record { drains = refl; empty = refl; known = (st, here) })

pub turns-Flushed :
    (k : ℕ) (f : Backend) (n : ℕ) (m : Manager) → Flushed k m → Flushed k (turns f n m)
unfolding turns turn
turns-Flushed k f zero m v = v
turns-Flushed k f (suc n) m v =
    turns-Flushed k f n (turn f m)
      (worker_finish-Flushed k 0 _ (worker_take m) (worker_take-Flushed k m v))

pending_batches-publish :
    (m : Manager) (rs : List (ℕ × Bool)) → pending_batches (publish m rs) ≡ pending_batches m
unfolding pending_batches
pending_batches-publish m [] = refl
pending_batches-publish m (r ∷ rs) = refl

pending_batches-worker_finish :
    (answer : Option (List Bool)) (m : Manager)
    → pending_batches (worker_finish 0 answer m) ≡ length m.lookup_queue + (length m.running - 1)
unfolding worker_finish pick pending_batches
pending_batches-worker_finish answer m = elim (List-cases m.running) [
  | inl idle ↦ rw (idle, worker_finish, pick) (rw idle (omega arith))
  | inr (b, others, running) ↦
      rw (running, worker_finish)
        (pending_batches-publish (record m { running = others }) _ ∙ omega arith)
]

-- a turn leaves a batch less, if there is one
turn_pending : (f : Backend) (m : Manager) → pending_batches (turn f m) ≤ pending_batches m - 1
unfolding turn pending_batches worker_take
turn_pending f m =
    let taken = worker_take m in
    let finished = pending_batches-worker_finish (f (first_batch taken.running)) taken in
    elim (List-cases m.lookup_queue) [
      | inl idle ↦ ground (arith, finished)
      | inr (b, queue, next) ↦ elim (List-cases (active_items m b)) [
        | inl cancelled ↦ ground (arith, finished)
        | inr (item, items, kept) ↦
            ground (arith, finished, length-append m.running ((item ∷ items) ∷ []))
      ]
    ]

pub turns_done :
    (f : Backend) (n : ℕ) (m : Manager) → pending_batches m ≤ n → pending_batches (turns f n m) ≡ 0
unfolding turns
turns_done f zero m h = omega (arith, h)
turns_done f (suc n) m h = turns_done f n (turn f m) (omega (arith, h, turn_pending f m))
