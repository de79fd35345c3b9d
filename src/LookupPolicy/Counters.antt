-- ===== src/LookupPolicy/Counters.antt =====
-- The counters that `snapshot` reports, and the age of the oldest deferred request.
use deepseek_v4_flash_mi300x.Prelude.{
  ℕ, ◌+◌, ◌-◌, ◌≤◌, ◌≡◌, ◌↔◌, All, Bool, true, false, Option, none, some, List, [], ◌∷◌, arith,
}
use deepseek_v4_flash_mi300x.Prelude.Map.{Map}
use deepseek_v4_flash_mi300x.LookupPolicy.{
  Policy, Reason, deadline, circuit_open, lookup_in_flight, circuit_bypass_reason, bypass_reason,
  defer, resolve, finish, oldest, snapshot, Call, asks_circuit, asks, snapshots, step, run,
}

abbrev pub one_if_deadline : Option Reason → ℕ
one_if_deadline (some deadline) = 1
one_if_deadline _ = 0

abbrev pub one_if_circuit : Option Reason → ℕ
one_if_circuit (some circuit_open) = 1
one_if_circuit (some lookup_in_flight) = 1
one_if_circuit _ = 0

-- What the scheduler was answered.
abbrev pub answer : Policy → Call → Option Reason
answer p (asks_circuit r now) = (circuit_bypass_reason p r now).1
answer p (asks r now) = (bypass_reason p r now).1
answer p _ = none

-- What it was told by the snapshots that reset.
abbrev pub told_timeouts : Policy → Call → ℕ
told_timeouts p (snapshots now true) = (snapshot p now true).1.timeout_total
told_timeouts p _ = 0

abbrev pub told_bypasses : Policy → Call → ℕ
told_bypasses p (snapshots now true) = (snapshot p now true).1.circuit_bypass_total
told_bypasses p _ = 0

pub deadlines : Policy → List Call → ℕ
deadlines p [] = 0
deadlines p (c ∷ cs) = one_if_deadline (answer p c) + deadlines (step p c) cs

pub bypasses : Policy → List Call → ℕ
bypasses p [] = 0
bypasses p (c ∷ cs) = one_if_circuit (answer p c) + bypasses (step p c) cs

pub told_timeouts_in : Policy → List Call → ℕ
told_timeouts_in p [] = 0
told_timeouts_in p (c ∷ cs) = told_timeouts p c + told_timeouts_in (step p c) cs

pub told_bypasses_in : Policy → List Call → ℕ
told_bypasses_in p [] = 0
told_bypasses_in p (c ∷ cs) = told_bypasses p c + told_bypasses_in (step p c) cs

step_timeouts :
    (p : Policy) (c : Call)
    → told_timeouts p c + (step p c).timeout_delta ≡ p.timeout_delta + one_if_deadline (answer p c)
unfolding step circuit_bypass_reason bypass_reason defer resolve finish snapshot
step_timeouts p (snapshots now true) = omega arith
step_timeouts p (snapshots now false) = omega arith
step_timeouts p _ = ground arith

step_bypasses :
    (p : Policy) (c : Call)
    → told_bypasses p c + (step p c).circuit_bypass_delta
      ≡ p.circuit_bypass_delta + one_if_circuit (answer p c)
unfolding step circuit_bypass_reason bypass_reason defer resolve finish snapshot
step_bypasses p (snapshots now true) = omega arith
step_bypasses p (snapshots now false) = omega arith
step_bypasses p _ = ground arith

-- Over any calls, the answers "deadline", added to the counter at the start, are as many as the
-- resetting snapshots report and the counter keeps; and so are the answers "circuit open" and
-- "lookup in flight" in the other counter.
pub run_counters :
    (p : Policy) (cs : List Call)
    → (told_timeouts_in p cs + (run p cs).timeout_delta ≡ p.timeout_delta + deadlines p cs)
      × (told_bypasses_in p cs + (run p cs).circuit_bypass_delta
          ≡ p.circuit_bypass_delta + bypasses p cs)
unfolding run deadlines bypasses told_timeouts_in told_bypasses_in
run_counters p [] = (omega arith, omega arith)
run_counters p (c ∷ cs) =
    let rest = run_counters (step p c) cs in
    (omega (arith, rest.0, step_timeouts p c), omega (arith, rest.1, step_bypasses p c))

oldest_le_iff : (now n : ℕ) (m : Map ℕ) → (oldest now m ≤ n) ↔ All (λ e. now - e.1 ≤ n) m
unfolding oldest
oldest_le_iff now n [] = (λ _. tt, λ _. omega arith)
oldest_le_iff now n ((r, s) ∷ m) =
    let rest = oldest_le_iff now n m in
    (λ h. (omega arith, rest.0 (omega arith)), λ h. omega (arith, rest.1 h.1))

-- A snapshot's age is at most a bound exactly if every deferred request has waited for at most
-- that bound.
pub oldest_age_least :
    (p : Policy) (now n : ℕ) (reset : Bool)
    → ((snapshot p now reset).1.oldest_deferred_seconds ≤ n) ↔ All (λ e. now - e.1 ≤ n) p.deferred
unfolding snapshot
oldest_age_least p now n reset = oldest_le_iff now n p.deferred
