-- ===== src/LookupPolicy/Deadline.antt =====
-- The deadline of a deferred request.
use deepseek_v4_flash_mi300x.Prelude.{ℕ, ◌+◌, ◌≤◌, ◌<◌, ◌≡◌, ◌≢◌, none, some, arith}
use deepseek_v4_flash_mi300x.Prelude.Map.{lookup, lookup-del, lookup-set_default}
use deepseek_v4_flash_mi300x.LookupPolicy.{
  Policy, circuit_bypass_reason, bypass_reason, defer, resolve, finish, snapshot, Call,
  asks_circuit, asks, defers, resolves, finishes, snapshots, step,
}

-- If a request is deferred and its deadline has passed, asking for it gives a reason to bypass,
-- and it is no longer deferred.
pub bypass_reason_late :
    (p : Policy) (r now : ℕ) {started : ℕ}
    → lookup r p.deferred ≡ some started
    → started + p.timeout ≤ now
    → ((bypass_reason p r now).1 ≢ none) × (lookup r (bypass_reason p r now).0.deferred ≡ none)
unfolding bypass_reason
bypass_reason_late p r now h late = ground (arith, lookup-del r r p.deferred)

-- If a request is deferred, its deadline has not passed and the circuit is not open, asking for
-- it gives no reason to bypass and changes nothing.
pub bypass_reason_early :
    (p : Policy) (r now : ℕ) {started : ℕ}
    → lookup r p.deferred ≡ some started
    → now < started + p.timeout
    → p.circuit_open_until ≤ now
    → bypass_reason p r now ≡ (p, none)
unfolding bypass_reason
bypass_reason_early p r now h early closed = ground arith

-- A call moves no start time: a request that is deferred before and after it waits since the same
-- time, and one that was not deferred is so only by `defer`.
step_keeps_start :
    (p : Policy) (c : Call) (r : ℕ) {s t : ℕ}
    → lookup r p.deferred ≡ some s
    → lookup r (step p c).deferred ≡ some t
    → t ≡ s
unfolding step circuit_bypass_reason bypass_reason defer resolve finish snapshot
step_keeps_start p (asks_circuit q now) r h k = ground (arith, lookup-del q r p.deferred)
step_keeps_start p (asks q now) r h k = ground (arith, lookup-del q r p.deferred)
step_keeps_start p (defers q u) r h k = ground (arith, lookup-set_default q r u p.deferred)
step_keeps_start p (resolves q) r h k = ground (arith, lookup-del q r p.deferred)
step_keeps_start p (finishes q) r h k = ground (arith, lookup-del q r p.deferred)
step_keeps_start p (snapshots now reset) r h k = ground arith
