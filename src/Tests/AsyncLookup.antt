-- ===== src/Tests/AsyncLookup.antt =====
-- Runs of the asynchronous lookups (patches/async_lookup.bounded.py).
use deepseek_v4_flash_mi300x.Prelude.{
  ℕ, ◌≤◌, ◌≡◌, refl, Bool, true, false, none, some, List, [], ◌∷◌, length, mem, add, arith,
}
use deepseek_v4_flash_mi300x.Prelude.Map.{put, lookup}
use deepseek_v4_flash_mi300x.AsyncLookup.{
  Item, Manager, LookupState, init, drain_if_needed, new_state, ensure_state, join_state,
  lookup_key, pending_batches,
}
use deepseek_v4_flash_mi300x.AsyncLookup.Workers.{active_items, worker_take}
use deepseek_v4_flash_mi300x.AsyncLookup.InFlight.{is_on_its_way}
use deepseek_v4_flash_mi300x.AsyncLookup.InFlight.Runs.{
  Call, looks_up, flushes, takes_batch, step, run, unresolved_on_its_way, queue_bounded,
}
use deepseek_v4_flash_mi300x.AsyncLookup.InFlight.Turns.{turns}
use deepseek_v4_flash_mi300x.AsyncLookup.InFlight.Progress.{answered_again}
use deepseek_v4_flash_mi300x.AsyncLookup.Flush.{
  chunks_of, round_robin, rounds, group, put_batch, put_batches, flush,
}
use deepseek_v4_flash_mi300x.AsyncLookup.Flush.RoundRobin.{concat, by_req}
use deepseek_v4_flash_mi300x.AsyncLookup.Flush.Order.{chunks_of-by_req}

abbrev item : ℕ → ℕ → Item
item key req = record { key = key; req = req; token = key }

-- three keys of request 1 and one of request 2
abbrev step_items : List Item
step_items = item 10 1 ∷ item 11 1 ∷ item 20 2 ∷ item 12 1 ∷ []

chunks_of-by_req_example : by_req 1 (concat (chunks_of 2 step_items)) ≡ by_req 1 step_items
chunks_of-by_req_example = chunks_of-by_req 1 2 step_items (omega arith)

-- request 1 asks for key 5, and a worker has taken it
abbrev asking : List Call
asking = looks_up 5 1 ∷ flushes [] ∷ takes_batch ∷ []

abbrev waiting : LookupState
waiting = record { result = none; request_ids = 1 ∷ []; active = 0 }

abbrev small : Manager
small = record {
  max_pending_batches = 8;
  max_keys_per_step = 16;
  max_keys_per_batch = 4;
  dropped_keys_delta = 0;
  cancelled_keys_delta = 0;
  lookup_state = [];
  req_keys = [];
  lookup_batch = [];
  lookup_queue = [];
  pending_results = [];
  need_to_drain = false;
  running = [];
  next_token = 0;
  cleared = [];
}

unresolved_on_its_way_example : is_on_its_way (run small asking) 5 0 ≡ true
unfolding run step init lookup_key drain_if_needed ensure_state new_state join_state lookup put add
    mem flush put_batches put_batch chunks_of round_robin rounds group worker_take active_items
unresolved_on_its_way_example =
    unresolved_on_its_way 8 16 4 1 asking 5 waiting refl (tt, (tt, (tt, tt))) refl refl

-- every key is a hit
abbrev all_hits : List Item → List Bool
all_hits [] = []
all_hits (i ∷ items) = true ∷ all_hits items

length-all_hits : (items : List Item) → length (all_hits items) ≡ length items
length-all_hits [] = refl
length-all_hits (i ∷ items) = omega (arith, length-all_hits items)

-- request 2 asks for the key of request 1 after a flush and a turn of a worker
answered_again_example :
    (answer : Bool) × ((lookup_key 5 2
        (turns (λ items. some (all_hits items)) 1 (flush [] (run small (looks_up 5 1 ∷ []))))).1
      ≡ some answer)
unfolding run step init lookup_key drain_if_needed ensure_state new_state join_state lookup put add
    mem flush put_batches put_batch chunks_of round_robin rounds group pending_batches
answered_again_example =
    answered_again 8 16 4 1 (looks_up 5 1 ∷ []) [] (λ items. some (all_hits items)) 1 5 2 waiting
      refl (tt, tt) length-all_hits refl (omega arith)

queue_bounded_example :
    length (run small asking).lookup_queue ≤ (run small asking).max_pending_batches
unfolding init
queue_bounded_example = queue_bounded 8 16 4 1 asking refl (tt, (tt, (tt, tt)))
