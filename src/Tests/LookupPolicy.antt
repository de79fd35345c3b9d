-- ===== src/Tests/LookupPolicy.antt =====
-- Runs of the fail-open policy (patches/kv_lookup_fail_open.py).
use deepseek_v4_flash_mi300x.Prelude.{◌+◌, ◌≤◌, ◌≡◌, refl, true, List, [], ◌∷◌, length, arith}
use deepseek_v4_flash_mi300x.Prelude.Map.{lookup, put, del, set_default}
use deepseek_v4_flash_mi300x.LookupPolicy.{
  Policy, init, circuit_bypass_reason, bypass_reason, defer, Call, asks_circuit, asks, defers,
  resolves, snapshots, step, run,
}
use deepseek_v4_flash_mi300x.LookupPolicy.Admission.{run_bounded}
use deepseek_v4_flash_mi300x.LookupPolicy.Circuit.{after_all, expiries_open}
use deepseek_v4_flash_mi300x.LookupPolicy.Counters.{
  told_timeouts_in, told_bypasses_in, deadlines, bypasses, run_counters,
}

-- a deadline of 10, a breaker of 30 after 2 timeouts, 2 lookups at a time
abbrev small : Policy
small = record {
  timeout = 10;
  circuit_breaker = 30;
  threshold = 2;
  max_concurrent = 2;
  deferred = [];
  consecutive_timeouts = 0;
  circuit_open_until = 0;
  timeout_delta = 0;
  circuit_bypass_delta = 0;
}

-- two requests wait
abbrev waiting : Policy
waiting = record small { deferred = (7, 1) ∷ (8, 2) ∷ [] }

-- the circuit is open
abbrev tripped : Policy
tripped = record waiting { circuit_open_until = 50; consecutive_timeouts = 2 }

abbrev day : List Call
day =
    asks_circuit 7 1
    ∷ defers 7 1
    ∷ asks_circuit 8 2
    ∷ defers 8 2
    ∷ asks_circuit 9 3
    ∷ resolves 7
    ∷ []

run_bounded_example : length (run small day).deferred ≤ (run small day).max_concurrent
unfolding init step circuit_bypass_reason defer lookup set_default put
run_bounded_example =
    run_bounded 10 30 2 2 day refl (tt, ((1, refl), (tt, ((2, refl), (tt, (tt, tt))))))

expiries_open_example : (after_all waiting ((7, 11) ∷ (8, 12) ∷ [])).circuit_open_until ≡ 42
unfolding bypass_reason lookup del
expiries_open_example = expiries_open waiting 7 11 ((8, 12) ∷ []) (refl, (refl, tt)) (omega arith)

abbrev calls : List Call
calls = asks 7 11 ∷ snapshots 12 true ∷ asks 8 12 ∷ asks 9 13 ∷ []

run_counters_example :
    (told_timeouts_in waiting calls + (run waiting calls).timeout_delta
      ≡ waiting.timeout_delta + deadlines waiting calls)
    × (told_bypasses_in waiting calls + (run waiting calls).circuit_bypass_delta
        ≡ waiting.circuit_bypass_delta + bypasses waiting calls)
run_counters_example = run_counters waiting calls
