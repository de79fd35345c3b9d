-- ===== src/Scheduler/Matching/Runs.antt =====
-- patches/offloading-scheduler.dspark-prefix.py: any polls of any requests under one policy.
use deepseek_v4_flash_mi300x.Prelude.{
  ℕ, ◌+◌, ◌≤◌, ◌≡◌, ◌≢◌, refl, ◌∙◌, Bool, false, Option, none, some, List, [], ◌∷◌, length, ◌==◌,
  get_or, Bool-cases, Option-cases, inl, inr, arith,
}
use deepseek_v4_flash_mi300x.Prelude.Map.{
  Map, lookup, put, del, set_default, lookup-put, lookup-del, lookup-set_default,
}
use deepseek_v4_flash_mi300x.LookupPolicy.{
  Policy, ok, init, circuit_bypass_reason, bypass_reason, defer, resolve, finish,
}
use deepseek_v4_flash_mi300x.LookupPolicy.Admission.{IsBounded, init-IsBounded, finish-IsBounded}
use deepseek_v4_flash_mi300x.Scheduler.Matching.{
  Status, await_lookup, use_lookup, try_lookup, get_num_new_matched_tokens,
}
use deepseek_v4_flash_mi300x.Scheduler.Matching.FailOpen.{
  IsLinked, late_lookup_answers, matching-IsBounded,
}

pub record Requests : Type 0 where
  pub policy : Policy
  pub statuses : Map Status

-- `on_new_request`, `get_num_new_matched_tokens`, the start and end of transfers, `request_finished`,
-- and the end of a request's status
pub data Event : Type 0 where
  arrives : ℕ → Bool → Event
  polls : ℕ → ℕ → ℕ → ℕ → Option ℕ → Event
  transfers : ℕ → Bool → Event
  finishes leaves : ℕ → Event

abbrev pub new_status : Bool → Status
new_status skips = record {
  is_transferring = false;
  skips_reading = skips;
  deferred_lookup_start_time = none;
  external_lookup_bypassed = false;
}

unfoldable pub poll : ℕ → ℕ → ℕ → ℕ → Option ℕ → Requests → Requests
poll r now start later found q = elim (lookup r q.statuses) [
  | none ↦ q
  | some s ↦
      let o = get_num_new_matched_tokens r now start later found q.policy s in
      record { policy = o.policy; statuses = put r o.status q.statuses }
]

abbrev pub change : ℕ → (Status → Status) → Map Status → Map Status
change r f m = elim (lookup r m) [ none ↦ m | some s ↦ put r (f s) m ]

unfoldable pub step : Requests → Event → Requests
step q (arrives r skips) = record q { statuses = put r (new_status skips) q.statuses }
step q (polls r now start later found) = poll r now start later found q
step q (transfers r busy) = record q {
  statuses = change r (λ s. record s { is_transferring = busy }) q.statuses;
}
step q (finishes r) = record {
  policy = finish q.policy r;
  statuses = change r (λ s. record s { deferred_lookup_start_time = none }) q.statuses;
}
step q (leaves r) = record q { statuses = del r q.statuses }

unfoldable pub run : Requests → List Event → Requests
run q [] = q
run q (a ∷ events) = run (step q a) events

-- A request's name is not used again, and its status does not go, before it has finished.
abbrev pub IsAllowed : Requests → Event → Type 0
IsAllowed q (arrives r skips) = lookup r q.policy.deferred ≡ none
IsAllowed q (leaves r) = lookup r q.policy.deferred ≡ none
IsAllowed q _ = Unit {0}

abbrev pub AllAllowed : Requests → List Event → Type 0
AllAllowed q [] = Unit {0}
AllAllowed q (a ∷ events) = IsAllowed q a × AllAllowed (step q a) events

record Inv (q : Requests) : Type 0 where
  bounded : IsBounded q.policy
  linked :
      (r t : ℕ)
      → lookup r q.policy.deferred ≡ some t
      → (s : Status) × (lookup r q.statuses ≡ some s) × (s.deferred_lookup_start_time ≡ some t)

-- the waits of the other requests stay
poll_others :
    (r now start later j t : ℕ) (found : Option ℕ) (p : Policy) (s : Status)
    → let o = get_num_new_matched_tokens r now start later found p s in
      lookup j o.policy.deferred ≡ some t → (r == j) ≡ false → lookup j p.deferred ≡ some t
unfolding get_num_new_matched_tokens try_lookup await_lookup use_lookup circuit_bypass_reason
    bypass_reason defer resolve
poll_others r now start later j t found p s h other =
    let started = get_or s.deferred_lookup_start_time start in
    ground (
      arith,
      lookup-del r j p.deferred,
      lookup-set_default r j started p.deferred,
      lookup-del r j (set_default r started p.deferred),
    )

-- and the request's own wait is what its status says
poll_own :
    (r now start later : ℕ) (found : Option ℕ) (p : Policy) (s : Status)
    → IsLinked r p s
    → let o = get_num_new_matched_tokens r now start later found p s in IsLinked r o.policy o.status
unfolding get_num_new_matched_tokens try_lookup await_lookup use_lookup circuit_bypass_reason
    bypass_reason defer resolve
poll_own r now start later found p s linked t h =
    let started = get_or s.deferred_lookup_start_time start in
    ground (
      arith,
      linked t,
      lookup-del r r p.deferred,
      lookup-set_default r r started p.deferred,
      lookup-del r r (set_default r started p.deferred),
    )

poll-Inv :
    (r now start later : ℕ) (found : Option ℕ) (q : Requests)
    → Inv q
    → Inv (poll r now start later found q)
unfolding poll
poll-Inv r now start later found q v = elim (Option-cases (lookup r q.statuses)) [
  | inl gone ↦ rw (gone, poll) v
  | inr (s, here) ↦
      let o = get_num_new_matched_tokens r now start later found q.policy s in
      let own : IsLinked r q.policy s =
        λ t h. let (s', there, waits) = v.linked r t h in ground arith in
      rw (here, poll)
        (record {
          bounded = matching-IsBounded r now start later found q.policy s v.bounded;
          linked = λ j t h. elim (Bool-cases (r == j)) [
            | inl same ↦
                let e : r ≡ j = ground arith in
                (
                  o.status,
                  ground (arith, lookup-put r j o.status q.statuses),
                  poll_own r now start later found q.policy s own t (ground arith),
                )
            | inr other ↦
                let (s', there, waits) =
                  v.linked j t (poll_others r now start later j t found q.policy s h other) in
                (s', ground (arith, lookup-put r j o.status q.statuses), waits)
          ];
        })
]

lookup-change_same :
    (r : ℕ) (f : Status → Status) (m : Map Status) (s : Status)
    → lookup r m ≡ some s
    → lookup r (change r f m) ≡ some (f s)
lookup-change_same r f m s here = rw (here, change) (ground (arith, lookup-put r r (f s) m))

lookup-change_other :
    (r j : ℕ) (f : Status → Status) (m : Map Status)
    → (r == j) ≡ false
    → lookup j (change r f m) ≡ lookup j m
lookup-change_other r j f m other = elim (Option-cases (lookup r m)) [
  | inl gone ↦ rw (gone, change) refl
  | inr (s, here) ↦ rw (here, change) (ground (arith, lookup-put r j (f s) m))
]

step-Inv : (q : Requests) (a : Event) → IsAllowed q a → Inv q → Inv (step q a)
unfolding step finish
step-Inv q (arrives r skips) new v = record {
  bounded = v.bounded;
  linked = λ j t h.
      let (s, here, waits) = v.linked j t h in
      (s, ground (arith, new, lookup-put r j (new_status skips) q.statuses), waits);
}
step-Inv q (polls r now start later found) a v = poll-Inv r now start later found q v
step-Inv q (transfers r busy) a v = record {
  bounded = v.bounded;
  linked = λ j t h.
      let (s, here, waits) = v.linked j t h in
      let f = λ (x : Status). record x { is_transferring = busy } in
      elim (Bool-cases (r == j)) [
        | inl same ↦
            let e : r ≡ j = ground arith in
            (f s, rw e (lookup-change_same j f q.statuses s here), waits)
        | inr other ↦ (s, lookup-change_other r j f q.statuses other ∙ here, waits)
      ];
}
step-Inv q (finishes r) a v = record {
  bounded = finish-IsBounded q.policy r v.bounded;
  linked = λ j t h.
      let gone = lookup-del r j q.policy.deferred in
      let other : (r == j) ≡ false = ground arith in
      let (s, here, waits) = v.linked j t (ground arith) in
      (
        s,
        lookup-change_other r j (λ x. record x { deferred_lookup_start_time = none }) q.statuses
              other
            ∙ here,
        waits,
      );
}
step-Inv q (leaves r) new v = record {
  bounded = v.bounded;
  linked = λ j t h.
      let (s, here, waits) = v.linked j t h in
      (s, ground (arith, new, lookup-del r j q.statuses), waits);
}

run-Inv : (q : Requests) (events : List Event) → AllAllowed q events → Inv q → Inv (run q events)
unfolding run
run-Inv q [] a v = v
run-Inv q (e ∷ events) a v = run-Inv (step q e) events a.1 (step-Inv q e a.0 v)

init-Inv :
    (t b h c : ℕ) {p : Policy} → init t b h c ≡ ok p → Inv (record { policy = p; statuses = [] })
unfolding init lookup
init-Inv t b h c {p} e = record {
  bounded = init-IsBounded t b h c e;
  linked = λ r t h. absurd (ground arith);
}

-- From a new policy and no requests, after any events in which a request's name is not used
-- again, and its status does not go, while the policy still defers it: no more than
-- `max_concurrent` requests are deferred.
pub polls_bounded :
    (t b h c : ℕ) (events : List Event) {p : Policy}
    → init t b h c ≡ ok p
    → AllAllowed (record { policy = p; statuses = [] }) events
    → let q = run (record { policy = p; statuses = [] }) events in
      length q.policy.deferred ≤ q.policy.max_concurrent
polls_bounded t b h c events {p} e a =
    (run-Inv (record { policy = p; statuses = [] }) events a (init-Inv t b h c e)).bounded.in_flight

-- From a new policy and no requests, after any events in which a request's name is not used
-- again, and its status does not go, while the policy still defers it: a poll of a request that
-- has no transfer, and whose lookup began so long ago that its budget has passed when the poll
-- last looks at the clock, is answered with a number.
pub late_poll_answers :
    (t b h c : ℕ) (events : List Event) (r now start later waits : ℕ) (found : Option ℕ)
    (s : Status) {p : Policy}
    → init t b h c ≡ ok p
    → AllAllowed (record { policy = p; statuses = [] }) events
    → let q = run (record { policy = p; statuses = [] }) events in
      lookup r q.statuses ≡ some s
      → s.is_transferring ≡ false
      → s.deferred_lookup_start_time ≡ some waits
      → waits + q.policy.timeout ≤ later
      → (get_num_new_matched_tokens r now start later found q.policy s).matched ≢ none
late_poll_answers t b h c events r now start later waits found s {p} e a here idle since late =
    let q = run (record { policy = p; statuses = [] }) events in
    let v = run-Inv (record { policy = p; statuses = [] }) events a (init-Inv t b h c e) in
    late_lookup_answers r now start later waits found q.policy s idle
      (λ x k. let (s', there, w) = v.linked r x k in ground arith) since late
