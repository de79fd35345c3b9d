-- ===== src/Scheduler/Matching.antt =====
-- patches/offloading-scheduler.dspark-prefix.py, `get_num_new_matched_tokens`: the external lookup of
-- a request under the fail-open policy. What `_lookup` finds is an argument, `none` if it defers.
-- The tokens in the GPU's own cache and the groups' touches are left out.
use deepseek_v4_flash_mi300x.Prelude.{
  ℕ, ◌+◌, ◌≤◌, ◌<◌, ◌≡◌, ◌≢◌, refl, Bool, true, false, not, ◌&&◌, ◌||◌, Option, none, some, List,
  [], ◌∷◌, length, ltb, ◌==◌, if◌then◌else◌, get_or, is_some, Bool-cases, Option-cases, inl, inr,
  arith,
}
use deepseek_v4_flash_mi300x.Prelude.Map
use deepseek_v4_flash_mi300x.Prelude.Map.{set_default, lookup-set_default, lookup-del}
use deepseek_v4_flash_mi300x.LookupPolicy.{
  Policy, Reason, circuit_bypass_reason, bypass_reason, defer, resolve,
}
pub mod FailOpen
pub mod Runs

pub record Status : Type 0 where
  pub is_transferring : Bool  -- `transfer_jobs` is not empty
  pub skips_reading : Bool  -- `skip_reading_prefix_cache` of the request
  pub deferred_lookup_start_time : Option ℕ
  pub external_lookup_bypassed : Bool

-- what the scheduler asks of the tiers: the pins are kept only for a hit
pub data Cancel : Type 0 where
  keeps_lookup releases_pins keeps_pins : Cancel

pub record Outcome : Type 0 where
  pub policy : Policy
  pub status : Status
  pub matched : Option ℕ  -- none: ask again later
  pub cancel : Cancel

abbrev pub bypassed : Policy → Status → Outcome
bypassed p s = record {
  policy = p;
  status = record s { external_lookup_bypassed = true };
  matched = some 0;
  cancel = releases_pins;
}

-- the lookup has deferred; `start` is the time at which it began, `later` the time after it
unfoldable pub await_lookup : ℕ → ℕ → ℕ → Policy → Status → Outcome
await_lookup request start later p s =
    let started = get_or s.deferred_lookup_start_time start in
    let s' = record s { deferred_lookup_start_time = some started } in
    let (p', reason) = bypass_reason (defer p request started) request later in
    if is_some reason
    then bypassed p' (record s' { deferred_lookup_start_time = none })
    else record { policy = p'; status = s'; matched = none; cancel = keeps_lookup }

-- the lookup has answered
unfoldable pub use_lookup : ℕ → ℕ → Policy → Status → Outcome
use_lookup request found p s = record {
  policy = resolve p request;
  status = record s { deferred_lookup_start_time = none };
  matched = some found;
  cancel = if found == 0 then releases_pins else keeps_pins;
}

unfoldable pub try_lookup : ℕ → ℕ → ℕ → Option ℕ → Policy → Status → Outcome
try_lookup request start later none p s = await_lookup request start later p s
try_lookup request start later (some found) p s = use_lookup request found p s

-- `get_num_new_matched_tokens`; `now`, `start` and `later` are its three looks at the clock
unfoldable pub get_num_new_matched_tokens : ℕ → ℕ → ℕ → ℕ → Option ℕ → Policy → Status → Outcome
get_num_new_matched_tokens request now start later found p s =
    let (p', reason) = circuit_bypass_reason p request now in
    if s.is_transferring
    then record { policy = p; status = s; matched = none; cancel = keeps_lookup }
    else (if s.skips_reading || s.external_lookup_bypassed
        then record { policy = p; status = s; matched = some 0; cancel = keeps_lookup }
        else (if is_some reason then bypassed p' s else try_lookup request start later found p' s))
