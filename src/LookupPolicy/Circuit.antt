-- ===== src/LookupPolicy/Circuit.antt =====
-- The circuit breaker: when it opens, what it does while open, and what closes it.
use deepseek_v4_flash_mi300x.Prelude.{
  ℕ, ◌+◌, ◌≤◌, ◌<◌, ◌≡◌, true, none, some, List, [], ◌∷◌, length, arith,
}
use deepseek_v4_flash_mi300x.Prelude.Map.{lookup, has, lookup-del}
use deepseek_v4_flash_mi300x.LookupPolicy.{Policy, deadline, circuit_open, bypass_reason, resolve}

-- The questions, each answered "deadline" by the policy that the earlier ones leave.
abbrev pub AllExpire : Policy → List (ℕ × ℕ) → Type 0
AllExpire p [] = Unit {0}
AllExpire p ((r, now) ∷ qs) =
    ((bypass_reason p r now).1 ≡ some deadline) × AllExpire (bypass_reason p r now).0 qs

unfoldable pub after_all : Policy → List (ℕ × ℕ) → Policy
after_all p [] = p
after_all p ((r, now) ∷ qs) = after_all (bypass_reason p r now).0 qs

abbrev pub last_time : ℕ → List (ℕ × ℕ) → ℕ
last_time t [] = t
last_time t ((_, now) ∷ qs) = last_time now qs

pub expiry_counts :
    (p : Policy) (r now : ℕ)
    → (bypass_reason p r now).1 ≡ some deadline
    → let q = (bypass_reason p r now).0 in
      (q.consecutive_timeouts ≡ p.consecutive_timeouts + 1)
      × (q.threshold ≡ p.threshold)
      × (q.circuit_breaker ≡ p.circuit_breaker)
      × (p.threshold ≤ p.consecutive_timeouts + 1 → q.circuit_open_until ≡ now + p.circuit_breaker)
unfolding bypass_reason
expiry_counts p r now h = ground arith

-- After a non-empty run of questions that are each answered "deadline", if they bring the count
-- of consecutive timeouts to the threshold, the circuit is open until the last question's time
-- plus the breaker's time.
pub expiries_open :
    (p : Policy) (r now : ℕ) (qs : List (ℕ × ℕ))
    → AllExpire p ((r, now) ∷ qs)
    → p.threshold ≤ p.consecutive_timeouts + length ((r, now) ∷ qs)
    → (after_all p ((r, now) ∷ qs)).circuit_open_until ≡ last_time now qs + p.circuit_breaker
unfolding after_all
expiries_open p r now [] h enough = (expiry_counts p r now h.0).3 (omega arith)
expiries_open p r now ((r', now') ∷ qs) h enough =
    let q = (bypass_reason p r now).0 in
    let (counted, same, breaker, _) = expiry_counts p r now h.0 in
    let ih = expiries_open q r' now' qs h.1 (omega arith) in omega arith

-- While the circuit is open every question is answered "circuit open", and the request that was
-- asked for is not deferred any more.
pub open_bypasses :
    (p : Policy) (r now : ℕ)
    → now < p.circuit_open_until
    → ((bypass_reason p r now).1 ≡ some circuit_open)
      × (lookup r (bypass_reason p r now).0.deferred ≡ none)
unfolding bypass_reason
open_bypasses p r now h = ground (arith, lookup-del r r p.deferred)

-- An answer for a deferred request closes the circuit, sets the count of consecutive timeouts
-- to 0, and ends the request's wait.
pub resolve_closes :
    (p : Policy) (r : ℕ)
    → has r p.deferred ≡ true
    → ((resolve p r).consecutive_timeouts ≡ 0)
      × ((resolve p r).circuit_open_until ≡ 0)
      × (lookup r (resolve p r).deferred ≡ none)
unfolding resolve
resolve_closes p r h = ground (arith, lookup-del r r p.deferred)
