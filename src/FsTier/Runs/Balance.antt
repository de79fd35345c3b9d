-- ===== src/FsTier/Runs/Balance.antt =====
-- The books of the tier over any calls.
use deepseek_v4_flash_mi300x.Prelude.{
  ℕ, ◌≡◌, refl, subst, Bool, true, false, ◌||◌, List, [], ◌∷◌, mem, Option-cases, inl, inr, arith,
}
use deepseek_v4_flash_mi300x.Prelude.Map.{Map, has, set_default}
use deepseek_v4_flash_mi300x.Prelude.Map
use deepseek_v4_flash_mi300x.Prelude.Totals.{total}
use deepseek_v4_flash_mi300x.EvictionGate
use deepseek_v4_flash_mi300x.ShardLeases.{
  Siblings, Index, lookup_begin, lookup_end, pin_hit, pin_hits, release_pending_shards,
  lease_candidate, lease_candidates, candidates_of, drop_request_pending, release_request_pins,
}
use deepseek_v4_flash_mi300x.ShardLeases.Leases
use deepseek_v4_flash_mi300x.ShardLeases.Leases.{
  pin_cached, resolve_cached_lookup, open_request, release_request,
}
use deepseek_v4_flash_mi300x.ShardLeases.Lru.{flush_touches}
use deepseek_v4_flash_mi300x.ShardLeases.Runs
use deepseek_v4_flash_mi300x.AsyncLookup
use deepseek_v4_flash_mi300x.AsyncLookup.{Manager, lookup_key}
use deepseek_v4_flash_mi300x.AsyncLookup.Flush.{flush}
use deepseek_v4_flash_mi300x.FsTier.{Tier, Env}
use deepseek_v4_flash_mi300x.FsTier.Space.{get_available_bytes}
use deepseek_v4_flash_mi300x.FsTier.Eviction.{drain_evictions, maybe_schedule_eviction}
use deepseek_v4_flash_mi300x.FsTier.Requests.{
  on_new_request, lookup, cancel_lookup, on_request_finished, on_schedule_end, get_stats,
  take_events,
}
use deepseek_v4_flash_mi300x.FsTier.Books.{
  id, Inv, Same, Same-Inv, Same-trans, drain_evictions-Same, maybe_schedule_eviction-Same,
}
use deepseek_v4_flash_mi300x.FsTier.Books.Stores.{submit_store-Inv}
use deepseek_v4_flash_mi300x.FsTier.Books.Loads.{submit_load-Inv, get_finished_jobs-Inv}
use deepseek_v4_flash_mi300x.FsTier.Runs.{
  Config, created, new_tier, with_lookups, init, Call, stores, loads, finishes, opens, closes,
  looks_up, cancels, ends_step, reports, takes_events, deletes, takes_batch, finishes_batch,
  begins_probe, fails_probe, ends_probe, step, run, IsAllowed, AllAllowed,
}

-- The calls of requests and of the lookup threads leave the jobs' leases alone.
pending_jobs :
    (req : ℕ) (shards : List ℕ) (ix : Index)
    → (release_pending_shards req shards ix).job_shards ≡ ix.job_shards
unfolding release_pending_shards
pending_jobs req shards ix = ground arith

candidates_jobs :
    (e : Siblings) (shards : List ℕ) (ix : Index)
    → (lease_candidates e shards ix).0.job_shards ≡ ix.job_shards
unfolding lease_candidates lease_candidate
candidates_jobs e [] ix = refl
candidates_jobs e (s ∷ shards) ix =
    ground (arith, candidates_jobs e shards (lease_candidate e s ix).0)

begin_jobs :
    (e : Siblings) (req : ℕ) (shards : List ℕ) (ix : Index)
    → (lookup_begin e req shards ix).0.job_shards ≡ ix.job_shards
unfolding lookup_begin
begin_jobs e req shards ix = ground (arith, candidates_jobs e shards ix)

hits_jobs :
    (e : Siblings) (req now : ℕ) (shards : List ℕ) (hits : List Bool) (ix : Index)
    → (pin_hits e req now shards hits ix).job_shards ≡ ix.job_shards
unfolding pin_hits pin_hit
hits_jobs e req now [] hits ix = refl
hits_jobs e req now (s ∷ shards) [] ix = refl
hits_jobs e req now (s ∷ shards) (true ∷ hits) ix =
    ground (arith, hits_jobs e req now shards hits (pin_hit e req now s ix))
hits_jobs e req now (s ∷ shards) (false ∷ hits) ix = hits_jobs e req now shards hits ix

end_jobs :
    (e : Siblings) (req now : ℕ) (shards : List ℕ) (eligible hits : List Bool) (ix : Index)
    → (lookup_end e req now shards eligible hits ix).0.job_shards ≡ ix.job_shards
unfolding lookup_end
end_jobs e req now shards eligible hits ix =
    let dropped = release_pending_shards req (candidates_of shards eligible) ix in
    ground (
      arith,
      pending_jobs req (candidates_of shards eligible) ix,
      hits_jobs e req now shards hits
          (record dropped { request_shards = set_default req [] dropped.request_shards }),
    )

resolve_jobs :
    (e : Siblings) (req now s : ℕ) (hit : Bool) (ix : Index)
    → (resolve_cached_lookup e req now s hit ix).0.job_shards ≡ ix.job_shards
unfolding resolve_cached_lookup pin_cached
resolve_jobs e req now s hit ix =
    ground (arith, pending_jobs req (s ∷ []) (pin_cached e req s hit ix).0)

-- What a call of a request does to the books: nothing.
lookup-Same : (e : Env) (key req : ℕ) (t : Tier) → Same t (lookup e key req t).0
unfolding lookup
lookup-Same e key req t =
    let (lookups', result) = lookup_key key req t.lookups in
    elim (Option-cases result) [
      | inl unknown ↦ rw (unknown, lookup) (refl, refl, refl, refl, refl, refl, refl)
      | inr (found, known) ↦ elim (Option-cases (e.path_of key)) [
        | inl bad ↦ rw (known, lookup, bad) (refl, refl, refl, refl, refl, refl, refl)
        | inr (s, good) ↦
            rw (known, lookup, good)
              (
                refl,
                refl,
                refl,
                refl,
                resolve_jobs e.siblings req e.now s found t.leases,
                refl,
                refl,
              )
      ]
    ]

reports-Same : (e : Env) (t : Tier) → Same t (get_stats e t).0
unfolding get_stats get_available_bytes
reports-Same e t = ground arith

opens-Same : (req : ℕ) (t : Tier) → Same t (on_new_request req t)
unfolding on_new_request open_request drop_request_pending
opens-Same req t = ground arith

closes-Same : (req : ℕ) (t : Tier) → Same t (on_request_finished req t)
unfolding on_request_finished release_request release_request_pins drop_request_pending
closes-Same req t = ground arith

cancels-Same :
    (req : ℕ) (release_pins : Bool) (t : Tier) → Same t (cancel_lookup req release_pins t)
unfolding cancel_lookup Leases.cancel_lookup release_request_pins drop_request_pending
cancels-Same req release_pins t = ground arith

events-Same : (t : Tier) → Same t (take_events t).0
unfolding take_events
events-Same t = ground arith

ends_step-Same : (e : Env) (schedule : List ℕ) (t : Tier) → Same t (on_schedule_end e schedule t)
unfolding on_schedule_end flush_touches
ends_step-Same e schedule t =
    let flushed = record t {
      lookups = flush schedule t.lookups;
      leases = (flush_touches e.now t.shard_touch_interval 64 t.leases).0;
    } in
    let d = drain_evictions e flushed in
    let u = maybe_schedule_eviction e d in
    Same-trans t flushed u (refl, refl, refl, refl, refl, refl, refl)
      (Same-trans flushed d u (drain_evictions-Same e flushed) (maybe_schedule_eviction-Same e d))

step-Inv : (t : Tier) (c : Call) → IsAllowed t c → Inv t → Inv (step t c)
unfolding step
step-Inv t (stores e job keys) (good, a, b) v = submit_store-Inv e job keys t good a b v
step-Inv t (loads e job req keys) (good, a, b) v = submit_load-Inv e job req keys t good a b v
step-Inv t (finishes e done) a v = get_finished_jobs-Inv e done t v
step-Inv t (opens req) a v = Same-Inv t _ (opens-Same req t) v
step-Inv t (closes req) a v = Same-Inv t _ (closes-Same req t) v
step-Inv t (looks_up e key req) a v = Same-Inv t _ (lookup-Same e key req t) v
step-Inv t (cancels req release_pins) a v = Same-Inv t _ (cancels-Same req release_pins t) v
step-Inv t (ends_step e schedule) a v = Same-Inv t _ (ends_step-Same e schedule t) v
step-Inv t (reports e) a v = Same-Inv t _ (reports-Same e t) v
step-Inv t takes_events a v = Same-Inv t _ (events-Same t) v
step-Inv t (deletes success) a v = Same-Inv t _ (refl, refl, refl, refl, refl, refl, refl) v
step-Inv t takes_batch a v = Same-Inv t _ (refl, refl, refl, refl, refl, refl, refl) v
step-Inv t (finishes_batch n answer) a v = Same-Inv t _ (refl, refl, refl, refl, refl, refl, refl) v
step-Inv t (begins_probe e req shards) a v =
    Same-Inv t _ (refl, refl, refl, refl, begin_jobs e req shards t.leases, refl, refl) v
step-Inv t (fails_probe req shards) a v =
    Same-Inv t _ (refl, refl, refl, refl, pending_jobs req shards t.leases, refl, refl) v
step-Inv t (ends_probe e req now shards eligible hits) a v =
    Same-Inv t _
      (refl, refl, refl, refl, end_jobs e req now shards eligible hits t.leases, refl, refl) v

run-Inv : (t : Tier) (cs : List Call) → AllAllowed t cs → Inv t → Inv (run t cs)
unfolding run
run-Inv t [] a v = v
run-Inv t (c ∷ cs) a v = run-Inv (step t c) cs a.1 (step-Inv t c a.0 v)

new_tier-Inv : (c : Config) (lookups : Manager) → Inv (new_tier c lookups)
unfolding new_tier total Runs.init EvictionGate.init mem Map.lookup
new_tier-Inv c lookups = record {
  reserved = refl;
  reserved_dict = tt;
  stored = λ j. refl;
  gated = λ j. refl;
  leased = λ j. refl;
  keyed = λ j. refl;
}

with_lookups_created :
    (c : Config) (r : AsyncLookup.Created) {t : Tier}
    → with_lookups c r ≡ created t
    → (lookups : Manager) × (new_tier c lookups ≡ t)
unfolding with_lookups
with_lookups_created c (AsyncLookup.value_error x) h = absurd (ground arith)
with_lookups_created c (AsyncLookup.created m) h = (m, ground arith)

pub created_from :
    (c : Config) {t : Tier} → init c ≡ created t → (lookups : Manager) × (new_tier c lookups ≡ t)
unfolding init
created_from c {t} h =
    let r =
      AsyncLookup.init c.max_pending_batches c.max_keys_per_step c.max_keys_per_batch
        c.num_workers in
    let made : with_lookups c r ≡ created t = ground arith in with_lookups_created c r made

init-Inv : (c : Config) {t : Tier} → init c ≡ created t → Inv t
init-Inv c {t} h = let (m, e) = created_from c h in subst Inv e (new_tier-Inv c m)

-- From a new tier, after any calls and thread turns in which each submitted job is not in
-- flight and its keys have paths under the hash shards: the reserved bytes are the sum of the
-- reservations, and each job has a reservation exactly if it is a store in flight, a lease of
-- the gate exactly then, and leases of shards exactly if it is a store or a load in flight.
pub run_books :
    (c : Config) (cs : List Call) {t : Tier}
    → init c ≡ created t
    → AllAllowed t cs
    → let t' = run t cs in
      (t'.reserved_store_bytes ≡ total id t'.store_job_reserved_bytes)
      × ((j : ℕ)
          → (has j t'.store_job_reserved_bytes ≡ has j t'.store_job_paths)
            × (mem j t'.gate.store_jobs ≡ has j t'.store_job_paths)
            × (has j t'.leases.job_shards ≡ (has j t'.store_job_paths || has j t'.load_job_paths)))
run_books c cs {t} h a =
    let v = run-Inv t cs a (init-Inv c h) in (v.reserved, λ j. (v.stored j, v.gated j, v.leased j))
