-- ===== src/AsyncLookup/Flush.antt =====
-- patches/async_lookup.bounded.py, `flush`: the step's keys by request, cut into chunks that take
-- turns, and put on the bounded queue or dropped as misses.
use deepseek_v4_flash_mi300x.Prelude.{
  ℕ, zero, suc, ◌+◌, Bool, true, false, Option, none, some, List, [], ◌∷◌, ◌++◌, length, take, drop,
  ltb, if◌then◌else◌, get_or,
}
use deepseek_v4_flash_mi300x.Prelude.Map.{Map, lookup, put}
use deepseek_v4_flash_mi300x.AsyncLookup.{Item, Manager, LookupState, is_set, set_result}
use deepseek_v4_flash_mi300x.AsyncLookup.Workers.{worker_take}
pub mod RoundRobin
pub mod Order

-- `batches.setdefault(req_id, []).append(item)` for each item
unfoldable pub group : List Item → Map (List Item) → Map (List Item)
group [] batches = batches
group (item ∷ items) batches =
    group items (put item.req (get_or (lookup item.req batches) [] ++ item ∷ []) batches)

abbrev pub values : Map (List Item) → List (List Item)
values [] = []
values ((_, batch) ∷ batches) = batch ∷ values batches

-- The `while request_chunks` loop as the chunks that it cuts. The fuel counts the rounds.
unfoldable pub round_robin : ℕ → ℕ → List (List Item) → List (List Item)
round_robin zero size chunks = []
round_robin (suc fuel) size [] = []
round_robin (suc fuel) size ([] ∷ chunks) = round_robin fuel size chunks
round_robin (suc fuel) size ((item ∷ items) ∷ chunks) =
    take size (item ∷ items) ∷ round_robin fuel size (chunks ++ drop size (item ∷ items) ∷ [])

-- the items and the lists that are left to the loop
unfoldable pub rounds : List (List Item) → ℕ
rounds [] = 0
rounds (items ∷ chunks) = suc (length items + rounds chunks)

-- `queue.Full`: each item that is still wanted is a miss
unfoldable pub drop_items : List Item → Manager → Manager
drop_items [] m = m
drop_items (item ∷ items) m =
    let m' = if is_set m item.token then set_result item.key false m else m in drop_items items m'

unfoldable pub put_batch : List Item → Manager → Manager
put_batch batch m =
    let dropped = drop_items batch m in
    if ltb (length m.lookup_queue) m.max_pending_batches
    then record m { lookup_queue = m.lookup_queue ++ batch ∷ [] }
    else record dropped { dropped_keys_delta = dropped.dropped_keys_delta + length batch }

abbrev pub takes : ℕ → Manager → Manager
takes zero m = m
takes (suc n) m = takes n (worker_take m)

abbrev pub head_or_zero : List ℕ → ℕ
head_or_zero [] = 0
head_or_zero (n ∷ ns) = n

abbrev pub tail : List ℕ → List ℕ
tail [] = []
tail (n ∷ ns) = ns

-- The puts; before each one the workers take as many batches as the schedule says.
unfoldable pub put_batches : List ℕ → List (List Item) → Manager → Manager
put_batches schedule [] m = m
put_batches schedule (batch ∷ batches) m =
    put_batches (tail schedule) batches (put_batch batch (takes (head_or_zero schedule) m))

-- the chunks of one step, with fuel for each item and each request
unfoldable pub chunks_of : ℕ → List Item → List (List Item)
chunks_of size pending =
    let batches = values (group pending []) in round_robin (rounds batches) size batches

-- `flush`
unfoldable pub flush : List ℕ → Manager → Manager
flush schedule m =
    put_batches schedule (chunks_of m.max_keys_per_batch m.lookup_batch)
      (record m { need_to_drain = true; lookup_batch = [] })
