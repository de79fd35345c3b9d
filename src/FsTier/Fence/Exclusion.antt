-- ===== src/FsTier/Fence/Exclusion.antt =====
-- Over any calls of the tier: no store anywhere while a deletion is under way.
use deepseek_v4_flash_mi300x.Prelude.{
  ℕ, ◌+◌, ◌<◌, ◌≡◌, ◌⊎◌, inl, inr, refl, subst, Bool, true, false, some, List, [], ◌∷◌, length,
  ◌==◌, Bool-cases, Option-cases, arith,
}
use deepseek_v4_flash_mi300x.Prelude.Map
use deepseek_v4_flash_mi300x.EvictionGate
use deepseek_v4_flash_mi300x.EvictionGate.{Gate, Action}
use deepseek_v4_flash_mi300x.EvictionGate.Exclusion.{fence_excludes_stores}
use deepseek_v4_flash_mi300x.ShardLeases.Lru.{flush_touches}
use deepseek_v4_flash_mi300x.ShardLeases.Runs
use deepseek_v4_flash_mi300x.AsyncLookup.{Manager}
use deepseek_v4_flash_mi300x.AsyncLookup.Flush.{flush}
use deepseek_v4_flash_mi300x.FsTier.{Tier, Env, Worker, run_one}
use deepseek_v4_flash_mi300x.FsTier.Eviction.{is_nil, drain_evictions, maybe_schedule_eviction}
use deepseek_v4_flash_mi300x.FsTier.Jobs.{submit_store, get_finished_jobs}
use deepseek_v4_flash_mi300x.FsTier.Requests.{on_schedule_end}
use deepseek_v4_flash_mi300x.FsTier.Runs.{
  Config, created, new_tier, init, Call, stores, loads, finishes, opens, closes, looks_up, cancels,
  ends_step, reports, takes_events, deletes, takes_batch, finishes_batch, begins_probe, fails_probe,
  ends_probe, step, run,
}
use deepseek_v4_flash_mi300x.FsTier.Runs.Balance.{created_from}
use deepseek_v4_flash_mi300x.FsTier.Fence.{is_at_rest, Counted, Inv, Same-Inv, drain_evictions-Inv}
use deepseek_v4_flash_mi300x.FsTier.Fence.Schedule.{maybe_schedule_eviction-Inv, run_one-Counted}
use deepseek_v4_flash_mi300x.FsTier.Fence.Frames.{
  admit_store-Same, submit_load-Same, settle_all-Same,
}
use deepseek_v4_flash_mi300x.FsTier.Fence.Requests.{
  pending_evicting, begin_evicting, end_evicting, lookup-Same, reports-Same, opens-Same,
  closes-Same, cancels-Same, events-Same,
}

poll-Inv : (e : Env) (t : Tier) → Inv t → Inv (maybe_schedule_eviction e (drain_evictions e t))
poll-Inv e t v = maybe_schedule_eviction-Inv e (drain_evictions e t) (drain_evictions-Inv e t v)

stores-Inv :
    (e : Env) (job : ℕ) (keys : List ℕ) (t : Tier) → Inv t → Inv (submit_store e job keys t).0
unfolding submit_store
stores-Inv e job keys t v =
    let u = maybe_schedule_eviction e (drain_evictions e t) in
    Same-Inv u _ (admit_store-Same e job keys u) (poll-Inv e t v)

finishes-Inv :
    (e : Env) (done : List (ℕ × Bool)) (t : Tier) → Inv t → Inv (get_finished_jobs e done t).0
unfolding get_finished_jobs
finishes-Inv e done t v =
    let u = maybe_schedule_eviction e (drain_evictions e t) in
    let u' = record u { failed_jobs = [] } in
    Same-Inv u' _ (settle_all-Same e done u')
      (Same-Inv u u' (refl, refl, refl, refl, refl) (poll-Inv e t v))

ends_step-Inv :
    (e : Env) (schedule : List ℕ) (t : Tier) → Inv t → Inv (on_schedule_end e schedule t)
unfolding on_schedule_end flush_touches
ends_step-Inv e schedule t v =
    let flushed = record t {
      lookups = flush schedule t.lookups;
      leases = (flush_touches e.now t.shard_touch_interval 64 t.leases).0;
    } in
    poll-Inv e flushed (Same-Inv t flushed (refl, refl, refl, refl, refl) v)

deletes-Inv : (success : Bool) (t : Tier) → Inv t → Inv (step t (deletes success))
unfolding step run_one
deletes-Inv success t v = elim (Option-cases t.worker) [
  | inl off ↦ record {
    owner = v.owner;
    fence_owner = v.fence_owner;
    deleting = λ h. rw off refl;
    marked = v.marked;
    counted = rw off tt;
  }
  | inr (w, on) ↦
      let counted : Counted (some w) = rw on at v.counted in
      record {
        owner = v.owner;
        fence_owner = v.fence_owner;
        deleting = λ h. rw on (ground (arith, v.deleting h));
        marked = v.marked;
        counted = rw on (run_one-Counted success w counted);
      }
]

step-Inv : (t : Tier) (c : Call) → Inv t → Inv (step t c)
unfolding step
step-Inv t (stores e job keys) v = stores-Inv e job keys t v
step-Inv t (loads e job req keys) v = Same-Inv t _ (submit_load-Same e job req keys t) v
step-Inv t (finishes e done) v = finishes-Inv e done t v
step-Inv t (opens req) v = Same-Inv t _ (opens-Same req t) v
step-Inv t (closes req) v = Same-Inv t _ (closes-Same req t) v
step-Inv t (looks_up e key req) v = Same-Inv t _ (lookup-Same e key req t) v
step-Inv t (cancels req release_pins) v = Same-Inv t _ (cancels-Same req release_pins t) v
step-Inv t (ends_step e schedule) v = ends_step-Inv e schedule t v
step-Inv t (reports e) v = Same-Inv t _ (reports-Same e t) v
step-Inv t takes_events v = Same-Inv t _ (events-Same t) v
step-Inv t (deletes success) v = deletes-Inv success t v
step-Inv t takes_batch v = Same-Inv t _ (refl, refl, refl, refl, refl) v
step-Inv t (finishes_batch n answer) v = Same-Inv t _ (refl, refl, refl, refl, refl) v
step-Inv t (begins_probe e req shards) v =
    Same-Inv t _ (refl, refl, refl, refl, begin_evicting e req shards t.leases) v
step-Inv t (fails_probe req shards) v =
    Same-Inv t _ (refl, refl, refl, refl, pending_evicting req shards t.leases) v
step-Inv t (ends_probe e req now shards eligible hits) v =
    Same-Inv t _ (refl, refl, refl, refl, end_evicting e req now shards eligible hits t.leases) v

run-Inv : (t : Tier) (cs : List Call) → Inv t → Inv (run t cs)
unfolding run
run-Inv t [] v = v
run-Inv t (c ∷ cs) v = run-Inv (step t c) cs (step-Inv t c v)

new_tier-Inv : (c : Config) (lookups : Manager) → Inv (new_tier c lookups)
unfolding new_tier Runs.init EvictionGate.init
new_tier-Inv c lookups = elim (Bool-cases (c.trigger == 0)) [
  | inl off ↦
      rw (off, new_tier)
        (record {
          owner = refl;
          fence_owner = λ h. absurd (ground arith);
          deleting = λ h. refl;
          marked = λ h. refl;
          counted = tt;
        })
  | inr on ↦
      rw (on, new_tier)
        (record {
          owner = refl;
          fence_owner = λ h. absurd (ground arith);
          deleting = λ h. refl;
          marked = λ h. refl;
          counted = refl;
        })
]

init-Inv : (c : Config) {t : Tier} → init c ≡ created t → Inv t
init-Inv c {t} h = let (m, e) = created_from c h in subst Inv e (new_tier-Inv c m)

-- From a new tier, after any calls and thread turns, and in any reachable state of the gates of
-- the host's processes in which the tier's gate is one of them: while a deletion that was
-- submitted is not collected, or a shard is marked as being evicted, no process of the host has
-- an admitted store.
pub deletion_excludes_stores :
    (c : Config) (cs : List Call) (acts : List Action) (i j : ℕ) (h : Gate) (w : Worker) {t : Tier}
    → init c ≡ created t
    → (run t cs).worker ≡ some w
    → (0 < length w.pending + length w.finished) ⊎ (is_nil (run t cs).leases.evicting ≡ false)
    → Map.lookup i (EvictionGate.run [] acts) ≡ some (run t cs).gate
    → Map.lookup j (EvictionGate.run [] acts) ≡ some h
    → h.store_jobs ≡ []
deletion_excludes_stores c cs acts i j h w {t} new on busy here there =
    let v = run-Inv t cs (init-Inv c new) in
    let counted : Counted (some w) = rw on at v.counted in
    let fenced : (run t cs).gate.writes_fenced ≡ true =
      elim (Bool-cases (run t cs).gate.writes_fenced) [
        | inl closed_gate ↦ closed_gate
        | inr open_gate ↦
            let rest : is_at_rest (some w) ≡ true = rw on at (v.deleting open_gate) in
            absurd (ground (arith, v.marked open_gate))
      ] in
    fence_excludes_stores acts i j (run t cs).gate h here there fenced
