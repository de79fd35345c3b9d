-- ===== src/LookupPolicy/Admission.antt =====
-- How many lookups are in flight, when each `defer` follows an answer of "no bypass".
use deepseek_v4_flash_mi300x.Prelude.{ℕ, ◌≤◌, ◌<◌, ◌≡◌, none, List, [], ◌∷◌, length, arith}
use deepseek_v4_flash_mi300x.Prelude.Map.{length-put, length-del-le, set_default}
use deepseek_v4_flash_mi300x.LookupPolicy.{
  Policy, ok, init, circuit_bypass_reason, bypass_reason, defer, resolve, finish, snapshot, Call,
  asks_circuit, asks, defers, resolves, finishes, snapshots, step, run,
}

pub record IsBounded (p : Policy) : Type 0 where
  pub in_flight : length p.deferred ≤ p.max_concurrent
  pub positive : 0 < p.max_concurrent

pub init-IsBounded : (t b h c : ℕ) {p : Policy} → init t b h c ≡ ok p → IsBounded p
unfolding init
init-IsBounded t b h c e = ground arith

-- an answer of "no bypass" leaves room for the request
pub admitted_room :
    (p : Policy) (r started now : ℕ)
    → IsBounded p
    → (circuit_bypass_reason p r now).1 ≡ none
    → IsBounded (defer p r started)
unfolding circuit_bypass_reason defer set_default
admitted_room p r started now b e = ground (arith, length-put r started p.deferred)

pub circuit_bypass_reason-IsBounded :
    (p : Policy) (r now : ℕ) → IsBounded p → IsBounded (circuit_bypass_reason p r now).0
unfolding circuit_bypass_reason
circuit_bypass_reason-IsBounded p r now b = ground (arith, length-del-le r p.deferred)

pub bypass_reason-IsBounded :
    (p : Policy) (r now : ℕ) → IsBounded p → IsBounded (bypass_reason p r now).0
unfolding bypass_reason
bypass_reason-IsBounded p r now b = ground (arith, length-del-le r p.deferred)

pub resolve-IsBounded : (p : Policy) (r : ℕ) → IsBounded p → IsBounded (resolve p r)
unfolding resolve
resolve-IsBounded p r b = ground (arith, length-del-le r p.deferred)

pub finish-IsBounded : (p : Policy) (r : ℕ) → IsBounded p → IsBounded (finish p r)
unfolding finish
finish-IsBounded p r b = ground (arith, length-del-le r p.deferred)

-- What the scheduler keeps: it defers a request only if the circuit check lets the request through.
abbrev pub IsAdmitted : Policy → Call → Type 0
IsAdmitted p (defers r t) = (now : ℕ) × ((circuit_bypass_reason p r now).1 ≡ none)
IsAdmitted p _ = Unit {0}

abbrev pub AllAdmitted : Policy → List Call → Type 0
AllAdmitted p [] = Unit {0}
AllAdmitted p (c ∷ cs) = IsAdmitted p c × AllAdmitted (step p c) cs

step-IsBounded : (p : Policy) (c : Call) → IsAdmitted p c → IsBounded p → IsBounded (step p c)
unfolding step snapshot
step-IsBounded p (asks_circuit r now) a b = circuit_bypass_reason-IsBounded p r now b
step-IsBounded p (asks r now) a b = bypass_reason-IsBounded p r now b
step-IsBounded p (defers r t) (now, a) b = admitted_room p r t now b a
step-IsBounded p (resolves r) a b = resolve-IsBounded p r b
step-IsBounded p (finishes r) a b = finish-IsBounded p r b
step-IsBounded p (snapshots now reset) a b = ground (arith, b.in_flight, b.positive)

run-IsBounded :
    (p : Policy) (cs : List Call) → AllAdmitted p cs → IsBounded p → IsBounded (run p cs)
unfolding run
run-IsBounded p [] a b = b
run-IsBounded p (c ∷ cs) a b = run-IsBounded (step p c) cs a.1 (step-IsBounded p c a.0 b)

-- From a new policy, over any calls of which each `defer` is of a request that the circuit
-- check lets through at that point, no more than `max_concurrent` requests are deferred.
pub run_bounded :
    (t b h c : ℕ) (cs : List Call) {p : Policy}
    → init t b h c ≡ ok p
    → AllAdmitted p cs
    → length (run p cs).deferred ≤ (run p cs).max_concurrent
run_bounded t b h c cs {p} e a = (run-IsBounded p cs a (init-IsBounded t b h c e)).in_flight
