-- ===== src/LookupPolicy.antt =====
-- patches/kv_lookup_fail_open.py: the bounded, fail-open policy for optional external KV lookups.
-- A request id is a number, compared by equality only. A time is a number of clock ticks.
use deepseek_v4_flash_mi300x.Prelude.{
  ℕ, ◌+◌, ◌-◌, max, Bool, true, false, not, ◌&&◌, Option, none, some, List, [], ◌∷◌, length, ltb,
  leb, ◌==◌, if◌then◌else◌,
}
use deepseek_v4_flash_mi300x.Prelude.Map.{Map, lookup, has, put, del, set_default}
pub mod Admission
pub mod Deadline
pub mod Circuit
pub mod Counters

pub data Reason : Type 0 where
  circuit_open deadline lookup_in_flight : Reason

pub data ValueError : Type 0 where
  timeout_seconds circuit_breaker_seconds timeout_threshold max_concurrent_lookups : ValueError

pub data Created {ℓ} (A : Type ℓ) : Type ℓ where
  ok : A → Created A
  raise : ValueError → Created A

pub record Policy : Type 0 where
  pub timeout : ℕ
  pub circuit_breaker : ℕ
  pub threshold : ℕ
  pub max_concurrent : ℕ
  pub deferred : Map ℕ
  pub consecutive_timeouts : ℕ
  pub circuit_open_until : ℕ
  pub timeout_delta : ℕ
  pub circuit_bypass_delta : ℕ

pub record Snapshot : Type 0 where
  pub deferred_requests : ℕ
  pub oldest_deferred_seconds : ℕ
  pub is_circuit_open : Bool
  pub timeout_total : ℕ
  pub circuit_bypass_total : ℕ

-- `__init__`, with its four checks in order
unfoldable pub init : ℕ → ℕ → ℕ → ℕ → Created Policy
init timeout breaker threshold concurrent =
    if timeout == 0
    then raise timeout_seconds
    else (if breaker == 0
        then raise circuit_breaker_seconds
        else (if threshold == 0
            then raise timeout_threshold
            else (if concurrent == 0
                then raise max_concurrent_lookups
                else ok (record {
                  timeout = timeout;
                  circuit_breaker = breaker;
                  threshold = threshold;
                  max_concurrent = concurrent;
                  deferred = [];
                  consecutive_timeouts = 0;
                  circuit_open_until = 0;
                  timeout_delta = 0;
                  circuit_bypass_delta = 0;
                }))))

-- `circuit_bypass_reason`
unfoldable pub circuit_bypass_reason : Policy → ℕ → ℕ → Policy × Option Reason
circuit_bypass_reason p request_id now =
    if ltb now p.circuit_open_until
    then (
      record p {
        deferred = del request_id p.deferred;
        circuit_bypass_delta = p.circuit_bypass_delta + 1;
      },
      some circuit_open,
    )
    else (if not (has request_id p.deferred) && leb p.max_concurrent (length p.deferred)
        then (record p { circuit_bypass_delta = p.circuit_bypass_delta + 1 }, some lookup_in_flight)
        else (p, none))

-- the tail of `bypass_reason`: a deadline has passed
unfoldable pub expire : Policy → ℕ → ℕ → Policy
expire p request_id now =
    let timeouts = p.consecutive_timeouts + 1 in
    record p {
      deferred = del request_id p.deferred;
      consecutive_timeouts = timeouts;
      timeout_delta = p.timeout_delta + 1;
      circuit_open_until =
          if leb p.threshold timeouts then now + p.circuit_breaker else p.circuit_open_until;
    }

-- `bypass_reason` after the circuit test, by the request's start time
unfoldable pub deadline_reason : Policy → ℕ → ℕ → Option ℕ → Policy × Option Reason
unfolding expire
deadline_reason p request_id now none = (p, none)
deadline_reason p request_id now (some started_at) =
    if ltb now (started_at + p.timeout) then (p, none) else (expire p request_id now, some deadline)

unfoldable pub after_circuit : ℕ → ℕ → Policy × Option Reason → Policy × Option Reason
unfolding deadline_reason
after_circuit request_id now (p, some reason) = (p, some reason)
after_circuit request_id now (p, none) =
    deadline_reason p request_id now (lookup request_id p.deferred)

-- `bypass_reason`
unfoldable pub bypass_reason : Policy → ℕ → ℕ → Policy × Option Reason
unfolding after_circuit circuit_bypass_reason
bypass_reason p request_id now =
    after_circuit request_id now (circuit_bypass_reason p request_id now)

-- `defer`
unfoldable pub defer : Policy → ℕ → ℕ → Policy
defer p request_id started_at = record p { deferred = set_default request_id started_at p.deferred }

-- `resolve`
unfoldable pub resolve : Policy → ℕ → Policy
resolve p request_id =
    let popped = record p { deferred = del request_id p.deferred } in
    if has request_id p.deferred
    then record popped { consecutive_timeouts = 0; circuit_open_until = 0 }
    else (if p.circuit_open_until == 0
        then popped
        else record popped { consecutive_timeouts = 0; circuit_open_until = 0 })

-- `finish`
unfoldable pub finish : Policy → ℕ → Policy
finish p request_id = record p { deferred = del request_id p.deferred }

-- the age of the oldest deferred request, 0 if there is none or all start later than `now`
unfoldable pub oldest : ℕ → Map ℕ → ℕ
oldest now [] = 0
oldest now ((_, start) ∷ m) = max (now - start) (oldest now m)

-- `snapshot`
unfoldable pub snapshot : Policy → ℕ → Bool → Policy × Snapshot
unfolding oldest
snapshot p now reset_counters = (
  if reset_counters then record p { timeout_delta = 0; circuit_bypass_delta = 0 } else p,
  record {
    deferred_requests = length p.deferred;
    oldest_deferred_seconds = oldest now p.deferred;
    is_circuit_open = ltb now p.circuit_open_until;
    timeout_total = p.timeout_delta;
    circuit_bypass_total = p.circuit_bypass_delta;
  },
)

-- The calls that the scheduler makes, with what each returns to it.
pub data Call : Type 0 where
  asks_circuit asks : ℕ → ℕ → Call
  defers : ℕ → ℕ → Call
  resolves finishes : ℕ → Call
  snapshots : ℕ → Bool → Call

unfoldable pub step : Policy → Call → Policy
step p (asks_circuit r now) = (circuit_bypass_reason p r now).0
step p (asks r now) = (bypass_reason p r now).0
step p (defers r t) = defer p r t
step p (resolves r) = resolve p r
step p (finishes r) = finish p r
step p (snapshots now reset) = (snapshot p now reset).0

unfoldable pub run : Policy → List Call → Policy
run p [] = p
run p (c ∷ cs) = run (step p c) cs
