-- ===== src/Scheduler/Matching/FailOpen.antt =====
-- A request never waits for external KV for longer than its budget, and the lookups are bounded.
use deepseek_v4_flash_mi300x.Prelude.{
  ℕ, ◌+◌, ◌≤◌, ◌≡◌, ◌≢◌, false, Option, none, some, get_or, Option-cases, inl, inr, arith,
}
use deepseek_v4_flash_mi300x.Prelude.Map.{lookup, lookup-set_default}
use deepseek_v4_flash_mi300x.LookupPolicy.{Policy, circuit_bypass_reason, defer}
use deepseek_v4_flash_mi300x.LookupPolicy.Admission.{
  IsBounded, admitted_room, circuit_bypass_reason-IsBounded, bypass_reason-IsBounded,
  resolve-IsBounded,
}
use deepseek_v4_flash_mi300x.LookupPolicy.Deadline.{bypass_reason_late}
use deepseek_v4_flash_mi300x.Scheduler.Matching.{
  Status, await_lookup, use_lookup, try_lookup, get_num_new_matched_tokens,
}

-- a request that the policy defers began to wait when its status says
abbrev pub IsLinked : ℕ → Policy → Status → Type 0
IsLinked r p s = (t : ℕ) → lookup r p.deferred ≡ some t → s.deferred_lookup_start_time ≡ some t

circuit_none :
    (p : Policy) (r now : ℕ)
    → (circuit_bypass_reason p r now).1 ≡ none
    → (circuit_bypass_reason p r now).0 ≡ p
unfolding circuit_bypass_reason
circuit_none p r now h = ground arith

defer_linked :
    (r t : ℕ) (p : Policy) (s : Status)
    → IsLinked r p s
    → s.deferred_lookup_start_time ≡ some t
    → lookup r (defer p r t).deferred ≡ some t
unfolding defer
defer_linked r t p s linked waits = elim (Option-cases (lookup r p.deferred)) [
  | inl new ↦ ground (arith, lookup-set_default r r t p.deferred)
  | inr (t', old) ↦ ground (arith, lookup-set_default r r t p.deferred, linked t' old)
]

await_late :
    (r start later t : ℕ) (p : Policy) (s : Status)
    → IsLinked r p s
    → s.deferred_lookup_start_time ≡ some t
    → t + p.timeout ≤ later
    → (await_lookup r start later p s).matched ≡ some 0
unfolding await_lookup defer
await_late r start later t p s linked waits late =
    let deferred : lookup r (defer p r t).deferred ≡ some t = defer_linked r t p s linked waits in
    ground (arith, bypass_reason_late (defer p r t) r later deferred late)

-- No request waits for longer than its budget.
pub late_lookup_answers :
    (r now start later t : ℕ) (found : Option ℕ) (p : Policy) (s : Status)
    → s.is_transferring ≡ false
    → IsLinked r p s
    → s.deferred_lookup_start_time ≡ some t
    → t + p.timeout ≤ later
    → (get_num_new_matched_tokens r now start later found p s).matched ≢ none
unfolding get_num_new_matched_tokens try_lookup use_lookup
late_lookup_answers r now start later t found p s idle linked waits late =
    ground (arith, circuit_none p r now, await_late r start later t p s linked waits late)

-- A lookup leaves a bounded policy bounded.
pub matching-IsBounded :
    (r now start later : ℕ) (found : Option ℕ) (p : Policy) (s : Status)
    → IsBounded p
    → IsBounded (get_num_new_matched_tokens r now start later found p s).policy
unfolding get_num_new_matched_tokens try_lookup await_lookup use_lookup
matching-IsBounded r now start later found p s b =
    let started = get_or s.deferred_lookup_start_time start in
    let p' = (circuit_bypass_reason p r now).0 in
    let b' = circuit_bypass_reason-IsBounded p r now b in
    ground (
      arith,
      circuit_none p r now,
      b',
      admitted_room p r started now b,
      resolve-IsBounded p' r b',
      bypass_reason-IsBounded (defer p r started) r later,
    )
