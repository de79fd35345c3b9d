-- ===== src/Tests/Scheduler.antt =====
-- Runs of the scheduler's lookups (patches/offloading-scheduler.dspark-prefix.py).
use deepseek_v4_flash_mi300x.Prelude.{
  ltb, if◌then◌else◌, ℕ, ◌≤◌, ◌≡◌, ◌≢◌, refl, true, false, none, some, List, [], ◌∷◌, length, arith,
}
use deepseek_v4_flash_mi300x.Prelude.Map.{lookup, put, set_default}
use deepseek_v4_flash_mi300x.LookupPolicy.{
  Policy, init, circuit_bypass_reason, bypass_reason, defer,
}
use deepseek_v4_flash_mi300x.Scheduler.{
  Found, hit, miss, maximal_prefix_lookup, sliding_window_lookup, is_store_reachable, Group,
}
use deepseek_v4_flash_mi300x.Scheduler.Prefix.{is_hit_prefix, maximal_prefix_lookup_lem}
use deepseek_v4_flash_mi300x.Scheduler.Window.{last_window, window_end, sliding_window_lookup_lem}
use deepseek_v4_flash_mi300x.Scheduler.Chunks.{window_reachable}
use deepseek_v4_flash_mi300x.Scheduler.Matching.{
  Status, await_lookup, try_lookup, get_num_new_matched_tokens,
}
use deepseek_v4_flash_mi300x.Scheduler.Matching.Runs.{
  Event, arrives, polls, poll, step, run, polls_bounded, late_poll_answers,
}

-- the manager has the keys up to 3
abbrev manager : ℕ → Found
manager key = if ltb key 4 then hit else miss

maximal_prefix_lookup_lem_example :
    ((maximal_prefix_lookup manager (1 ∷ 2 ∷ 9 ∷ 3 ∷ []) ≡ some 2)
      → is_hit_prefix manager (1 ∷ 2 ∷ 9 ∷ 3 ∷ []) 2 ≡ true)
    × (is_hit_prefix manager (1 ∷ 2 ∷ 9 ∷ 3 ∷ []) 2 ≡ true
        → maximal_prefix_lookup manager (1 ∷ 2 ∷ 9 ∷ 3 ∷ []) ≡ some 2)
maximal_prefix_lookup_lem_example = maximal_prefix_lookup_lem manager (1 ∷ 2 ∷ 9 ∷ 3 ∷ []) 2

sliding_window_lookup_lem_example :
    sliding_window_lookup manager 2 (9 ∷ 8 ∷ 2 ∷ 3 ∷ 7 ∷ [])
    ≡ window_end manager 2 (9 ∷ 8 ∷ 2 ∷ 3 ∷ 7 ∷ []) (last_window manager 2 (9 ∷ 8 ∷ 2 ∷ 3 ∷ 7 ∷ []))
sliding_window_lookup_lem_example =
    sliding_window_lookup_lem manager 2 (9 ∷ 8 ∷ 2 ∷ 3 ∷ 7 ∷ []) (omega arith)

abbrev group : Group
group = record {
  tokens_per_chunk = 16;
  is_eagle_group = true;
  num_block_ids = 9;
  next_stored_chunk_idx = 0;
  num_hit_chunks = 0;
}

window_reachable_example : is_store_reachable 6 8 (some 4) 2 false ≡ true
window_reachable_example =
    window_reachable 4 2 6 8 8 2 false (omega arith) refl (omega arith) (omega arith)

-- a budget of 10, and one lookup at a time
abbrev policy : Policy
policy = record {
  timeout = 10;
  circuit_breaker = 30;
  threshold = 2;
  max_concurrent = 1;
  deferred = [];
  consecutive_timeouts = 0;
  circuit_open_until = 0;
  timeout_delta = 0;
  circuit_bypass_delta = 0;
}

-- request 7 waits since 3
abbrev waiting_since : Status
waiting_since = record {
  is_transferring = false;
  skips_reading = false;
  deferred_lookup_start_time = some 3;
  external_lookup_bypassed = false;
}

abbrev events : List Event
events = arrives 7 false ∷ polls 7 2 3 4 none ∷ []

polls_bounded_example :
    length (run (record { policy = policy; statuses = [] }) events).policy.deferred
    ≤ (run (record { policy = policy; statuses = [] }) events).policy.max_concurrent
unfolding init lookup
polls_bounded_example = polls_bounded 10 30 2 1 events refl (refl, (tt, tt))

late_poll_answers_example :
    (get_num_new_matched_tokens 7 13 13 14 none
      (run (record { policy = policy; statuses = [] }) events).policy
      waiting_since).matched
    ≢ none
unfolding init lookup run step poll put get_num_new_matched_tokens circuit_bypass_reason try_lookup
    await_lookup defer set_default bypass_reason
late_poll_answers_example =
    late_poll_answers 10 30 2 1 events 7 13 13 14 3 none waiting_since refl (refl, (tt, tt)) refl
      refl refl (omega arith)
