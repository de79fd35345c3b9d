-- ===== src/AsyncLookup/InFlight/Runs.antt =====
-- patches/async_lookup.bounded.py: any calls of the scheduler, with the workers' turns between them.
use deepseek_v4_flash_mi300x.Prelude.{
  ◌≤◌, length, ℕ, ◌≡◌, refl, Bool, true, Option, none, some, List, [], ◌∷◌, mem, arith,
}
use deepseek_v4_flash_mi300x.Prelude.Map.{lookup}
use deepseek_v4_flash_mi300x.AsyncLookup.{
  LookupState, Manager, created, init, lookup_key, cleanup, invalidate, take_dropped_keys,
  take_cancelled_keys,
}
use deepseek_v4_flash_mi300x.AsyncLookup.Workers.{worker_take, worker_finish}
use deepseek_v4_flash_mi300x.AsyncLookup.Flush.{flush}
use deepseek_v4_flash_mi300x.AsyncLookup.InFlight.{Inv, none_else, is_on_its_way}
use deepseek_v4_flash_mi300x.AsyncLookup.InFlight.Results.{invalidate-Inv}
use deepseek_v4_flash_mi300x.AsyncLookup.InFlight.Lookups.{lookup_key-Inv}
use deepseek_v4_flash_mi300x.AsyncLookup.InFlight.Cleanups.{cleanup-Inv}
use deepseek_v4_flash_mi300x.AsyncLookup.InFlight.Workers.{
  moved-InvWith, worker_take-InvWith, worker_finish-InvWith, Answers, asked,
}
use deepseek_v4_flash_mi300x.AsyncLookup.InFlight.Flushes.{flush-Inv}

pub data Call : Type 0 where
  looks_up : ℕ → ℕ → Call
  flushes : List ℕ → Call
  cleans : ℕ → Call
  invalidates : List ℕ → Call
  takes_batch : Call
  finishes_batch : ℕ → Option (List Bool) → Call
  reports_dropped reports_cancelled : Call

unfoldable pub step : Manager → Call → Manager
step m (looks_up key req) = (lookup_key key req m).0
step m (flushes schedule) = flush schedule m
step m (cleans req) = cleanup req m
step m (invalidates keys) = invalidate keys m
step m takes_batch = worker_take m
step m (finishes_batch n answer) = worker_finish n answer m
step m reports_dropped = (take_dropped_keys m).0
step m reports_cancelled = (take_cancelled_keys m).0

unfoldable pub run : Manager → List Call → Manager
run m [] = m
run m (c ∷ cs) = run (step m c) cs

-- What `batch_lookup` keeps: it raises, or answers for each key that it is asked for.
abbrev pub IsAllowed : Manager → Call → Type 0
IsAllowed m (finishes_batch n answer) = Answers (asked n m.running) answer
IsAllowed m _ = Unit {0}

abbrev pub AllAllowed : Manager → List Call → Type 0
AllAllowed m [] = Unit {0}
AllAllowed m (c ∷ cs) = IsAllowed m c × AllAllowed (step m c) cs

step-Inv : (m : Manager) (c : Call) → IsAllowed m c → Inv m → Inv (step m c)
unfolding step take_dropped_keys take_cancelled_keys
step-Inv m (looks_up key req) a v = lookup_key-Inv key req m v
step-Inv m (flushes schedule) a v = flush-Inv schedule m v
step-Inv m (cleans req) a v = cleanup-Inv req m v
step-Inv m (invalidates keys) a v = invalidate-Inv keys m v
step-Inv m takes_batch a v = worker_take-InvWith none_else m v
step-Inv m (finishes_batch n answer) a v = worker_finish-InvWith none_else n answer m a v
step-Inv m reports_dropped a v =
    moved-InvWith none_else none_else m (step m reports_dropped) refl refl refl refl
      (λ f. ground arith) (λ k t h w. w) v
step-Inv m reports_cancelled a v =
    moved-InvWith none_else none_else m (step m reports_cancelled) refl refl refl refl
      (λ f. ground arith) (λ k t h w. w) v

pub run-Inv : (m : Manager) (cs : List Call) → AllAllowed m cs → Inv m → Inv (run m cs)
unfolding run
run-Inv m [] a v = v
run-Inv m (c ∷ cs) a v = run-Inv (step m c) cs a.1 (step-Inv m c a.0 v)

pub init-Inv : (p s b w : ℕ) {m : Manager} → init p s b w ≡ created m → Inv m
unfolding init lookup mem
init-Inv p s b w {m} e = record {
  positive = ground arith;
  fits = ground arith;
  live = λ k st l. ground arith;
  below = λ k st l. ground arith;
  cleared_below = λ t h. ground arith;
  own = λ j k x y lx ly t. ground arith;
  not_lost = λ k st l u. ground arith;
}

-- From a new manager, after any calls and worker turns in which `batch_lookup` raises or
-- answers for each key it is asked for: a key without a result has an item with its own token
-- in the step's batch, in the queue or with a worker, or a result that is to be drained.
pub unresolved_on_its_way :
    (p s b w : ℕ) (cs : List Call) (k : ℕ) (st : LookupState) {m : Manager}
    → init p s b w ≡ created m
    → AllAllowed m cs
    → lookup k (run m cs).lookup_state ≡ some st
    → st.result ≡ none
    → is_on_its_way (run m cs) k st.active ≡ true
unresolved_on_its_way p s b w cs k st {m} e a here unknown =
    let v = run-Inv m cs a (init-Inv p s b w e) in ground (arith, v.not_lost k st here unknown)

-- From a new manager, after any calls and worker turns in which `batch_lookup` raises or
-- answers for each key it is asked for, the queue holds no more than `max_pending_batches`
-- batches.
pub queue_bounded :
    (p s b w : ℕ) (cs : List Call) {m : Manager}
    → init p s b w ≡ created m
    → AllAllowed m cs
    → length (run m cs).lookup_queue ≤ (run m cs).max_pending_batches
queue_bounded p s b w cs {m} e a = (run-Inv m cs a (init-Inv p s b w e)).fits
