-- ===== src/AsyncLookup.antt =====
-- patches/async_lookup.bounded.py, `AsyncLookupManager`. A key and a request are numbers. A
-- cancellation token (`threading.Event`) is a number too, new for each state, and `cleared` holds
-- those that are no longer set. `running` is what the worker threads have taken and not finished.
use deepseek_v4_flash_mi300x.Prelude.{
  ℕ, zero, suc, ◌+◌, Bool, true, false, not, ◌&&◌, ◌||◌, Option, none, some, List, [], ◌∷◌, ◌++◌,
  length, take, drop, ltb, ◌==◌, if◌then◌else◌, get_or, mem, add, discard,
}
use deepseek_v4_flash_mi300x.Prelude.Map.{Map, lookup, put, del}
pub mod Flush
pub mod Workers
pub mod InFlight

pub record LookupState : Type 0 where
  pub result : Option Bool
  pub request_ids : List ℕ
  pub active : ℕ

pub record Item : Type 0 where
  pub key : ℕ
  pub req : ℕ
  pub token : ℕ

pub record Manager : Type 0 where
  pub max_pending_batches : ℕ
  pub max_keys_per_step : ℕ
  pub max_keys_per_batch : ℕ
  pub dropped_keys_delta : ℕ
  pub cancelled_keys_delta : ℕ
  pub lookup_state : Map LookupState
  pub req_keys : Map (List ℕ)
  pub lookup_batch : List Item
  pub lookup_queue : List (List Item)
  pub pending_results : List (List (ℕ × Bool))
  pub need_to_drain : Bool
  pub running : List (List Item)
  pub next_token : ℕ
  pub cleared : List ℕ

pub data Limit : Type 0 where
  pending_batches_limit step_limit batch_limit workers_limit : Limit

pub data Created : Type 0 where
  created : Manager → Created
  value_error : Limit → Created

-- `__init__`
unfoldable pub init : ℕ → ℕ → ℕ → ℕ → Created
init pending step batch workers =
    if pending == 0
    then value_error pending_batches_limit
    else (if step == 0
        then value_error step_limit
        else (if batch == 0
            then value_error batch_limit
            else (if workers == 0
                then value_error workers_limit
                else created (record {
                  max_pending_batches = pending;
                  max_keys_per_step = step;
                  max_keys_per_batch = batch;
                  dropped_keys_delta = 0;
                  cancelled_keys_delta = 0;
                  lookup_state = [];
                  req_keys = [];
                  lookup_batch = [];
                  lookup_queue = [];
                  pending_results = [];
                  need_to_drain = false;
                  running = [];
                  next_token = 0;
                  cleared = [];
                }))))

abbrev pub is_set : Manager → ℕ → Bool
is_set m token = not (mem token m.cleared)

-- `state.result = value` for the key's state, if it has one
unfoldable pub set_result : ℕ → Bool → Manager → Manager
set_result key value m = elim (lookup key m.lookup_state) [
  | none ↦ m
  | some state ↦ record m {
    lookup_state = put key (record state { result = some value }) m.lookup_state;
  }
]

unfoldable pub apply_results : List (ℕ × Bool) → Manager → Manager
apply_results [] m = m
apply_results ((key, value) ∷ batch) m = apply_results batch (set_result key value m)

unfoldable pub apply_batches : List (List (ℕ × Bool)) → Manager → Manager
apply_batches [] m = m
apply_batches (batch ∷ batches) m = apply_batches batches (apply_results batch m)

-- `drain_results`
unfoldable pub drain_results : Manager → Manager
drain_results m = apply_batches m.pending_results (record m { pending_results = [] })

unfoldable pub drain_if_needed : Manager → Manager
drain_if_needed m =
    if m.need_to_drain then record (drain_results m) { need_to_drain = false } else m

-- a state for a key that has none; past the step's limit it is a miss at once
unfoldable pub new_state : ℕ → ℕ → Manager → Manager
new_state key req m =
    let fresh = record m { next_token = suc m.next_token } in
    if ltb (length m.lookup_batch) m.max_keys_per_step
    then record fresh {
      lookup_state =
          put key (record { result = none; request_ids = []; active = m.next_token })
            m.lookup_state;
      lookup_batch = m.lookup_batch ++ record { key = key; req = req; token = m.next_token } ∷ [];
    }
    else record fresh {
      lookup_state =
          put key (record { result = some false; request_ids = []; active = m.next_token })
            m.lookup_state;
      dropped_keys_delta = suc m.dropped_keys_delta;
    }

unfoldable pub ensure_state : ℕ → ℕ → Manager → Manager
ensure_state key req m = elim (lookup key m.lookup_state) [
  | none ↦ new_state key req m
  | some state ↦ m
]

abbrev pub keys_of : ℕ → Manager → List ℕ
keys_of req m = get_or (lookup req m.req_keys) []

-- the request joins the key's state
unfoldable pub join_state : ℕ → ℕ → Manager → Manager × Option Bool
join_state key req m = elim (lookup key m.lookup_state) [
  | none ↦ (m, none)
  | some state ↦ (
    record m {
      lookup_state =
          put key (record state { request_ids = add req state.request_ids }) m.lookup_state;
      req_keys = put req (add key (keys_of req m)) m.req_keys;
    },
    state.result,
  )
]

-- `lookup`
unfoldable pub lookup_key : ℕ → ℕ → Manager → Manager × Option Bool
lookup_key key req m = join_state key req (ensure_state key req (drain_if_needed m))

-- one key of `cleanup`
unfoldable pub leave_state : ℕ → ℕ → Manager → LookupState → Manager
leave_state req key m state = elim (discard req state.request_ids) [
  | [] ↦ record m {
    cancelled_keys_delta = elim state.result [
      | none ↦ suc m.cancelled_keys_delta
      | some _ ↦ m.cancelled_keys_delta
    ];
    cleared = add state.active m.cleared;
    lookup_state = del key m.lookup_state;
  }
  | r ∷ rest ↦ record m {
    lookup_state = put key (record state { request_ids = r ∷ rest }) m.lookup_state;
  }
]

unfoldable pub leave_key : ℕ → ℕ → Manager → Manager
leave_key req key m = elim (lookup key m.lookup_state) [
  | none ↦ m
  | some state ↦ leave_state req key m state
]

unfoldable pub leave_keys : ℕ → List ℕ → Manager → Manager
leave_keys req [] m = m
leave_keys req (key ∷ keys) m = leave_keys req keys (leave_key req key m)

-- `cleanup`
unfoldable pub cleanup : ℕ → Manager → Manager
cleanup req m = leave_keys req (keys_of req m) (record m { req_keys = del req m.req_keys })

-- `invalidate`
unfoldable pub invalidate : List ℕ → Manager → Manager
invalidate [] m = m
invalidate (key ∷ keys) m = invalidate keys (set_result key false m)

-- `take_dropped_keys`
unfoldable pub take_dropped_keys : Manager → Manager × ℕ
take_dropped_keys m = (record m { dropped_keys_delta = 0 }, m.dropped_keys_delta)

-- `take_cancelled_keys`
unfoldable pub take_cancelled_keys : Manager → Manager × ℕ
take_cancelled_keys m = (record m { cancelled_keys_delta = 0 }, m.cancelled_keys_delta)

-- `pending_batches` and `pending_keys`
unfoldable pub pending_batches : Manager → ℕ
pending_batches m = length m.lookup_queue + length m.running

unfoldable pub pending_keys : Manager → ℕ
pending_keys m = length m.lookup_batch
