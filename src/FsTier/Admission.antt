-- ===== src/FsTier/Admission.antt =====
-- What becomes of a store that is submitted, and what the disk's reserve is worth.
use deepseek_v4_flash_mi300x.Prelude.{
  ℕ, ◌+◌, ◌*◌, ◌≤◌, ◌≡◌, ◌≢◌, refl, ap, ◌∙◌, Bool, true, false, not, ◌&&◌, Option, some, List, [],
  ◌∷◌, ◌++◌, length, if◌then◌else◌, Bool-cases, Option-cases, inl, inr, arith,
}
use deepseek_v4_flash_mi300x.Prelude.Map.{has, put, lookup-put, lookup-del}
use deepseek_v4_flash_mi300x.EvictionGate.{try_pin_store}
use deepseek_v4_flash_mi300x.ShardLeases.Leases.{pin_job}
use deepseek_v4_flash_mi300x.FsTier.{Tier, Env, get_finished}
use deepseek_v4_flash_mi300x.FsTier.Space.{get_available_bytes, has_store_space}
use deepseek_v4_flash_mi300x.FsTier.Eviction.{
  collect, drain_evictions, take_ownership, evict_oldest, evict_next, schedule_next, skip_missing,
  maybe_schedule_eviction,
}
use deepseek_v4_flash_mi300x.FsTier.Jobs.{
  paths_of, refuse_store, accept_store, undo_store, enqueue_store, lease_store, reserve_store,
  admit_store, submit_store,
}

-- what the eviction scheduler leaves alone
abbrev Steady : Tier → Tier → Type 0
Steady t t' =
    (t'.failed_jobs ≡ t.failed_jobs)
    × (t'.store_job_paths ≡ t.store_job_paths)
    × (t'.min_free_bytes ≡ t.min_free_bytes)

Steady-trans : (t u v : Tier) → Steady t u → Steady u v → Steady t v
Steady-trans t u v (a, b, c) (a', b', c') = (a' ∙ a, b' ∙ b, c' ∙ c)

collect-Steady : (e : Env) (done : List (ℕ × Bool)) (t : Tier) → Steady t (collect e done t)
unfolding collect
collect-Steady e [] t = (refl, refl, refl)
collect-Steady e ((path, success) ∷ done) t = collect-Steady e done _

drain-Steady : (e : Env) (t : Tier) → Steady t (drain_evictions e t)
unfolding drain_evictions get_finished
drain-Steady e t = elim (Option-cases t.worker) [
  | inl off ↦ rw (off, drain_evictions) (refl, refl, refl)
  | inr (w, on) ↦
      rw (on, drain_evictions)
        (collect-Steady e w.finished (record t { worker = some (get_finished w).0 }))
]

next-Steady : (e : Env) (n : ℕ) (paths : List ℕ) (t : Tier) → Steady t (evict_next e n paths t)
unfolding evict_next evict_oldest
next-Steady e n (p ∷ paths) t = ground arith
next-Steady e n [] t = ground arith

schedule-Steady : (e : Env) (t : Tier) → Steady t (maybe_schedule_eviction e t)
unfolding maybe_schedule_eviction schedule_next take_ownership get_available_bytes
schedule-Steady e t = elim (Option-cases t.worker) [
  | inl off ↦ rw (off, maybe_schedule_eviction) (refl, refl, refl)
  | inr (w, on) ↦
      let (t', n) = get_available_bytes e false t in
      let u = take_ownership e n t' in
      rw (on, maybe_schedule_eviction)
        (ground (arith, next-Steady e n (skip_missing e.exists u.orphan_tombstones) u))
]

-- The fate of a store: it is one of the failed jobs, or it is in flight, or the call raises.
abbrev Fate : ℕ → Tier → Tier × Bool → Type 0
Fate job t r =
    (fails : Bool) × (r.0.failed_jobs
      ≡ (if fails then t.failed_jobs ++ job ∷ [] else t.failed_jobs))
    × (has job r.0.store_job_paths ≡ (r.1 && not fails))

Fate-Steady : (job : ℕ) (t u : Tier) (r : Tier × Bool) → Steady t u → Fate job u r → Fate job t r
Fate-Steady job t u r (a, _, _) (f, p, q) =
    (f, p ∙ ap (λ xs. if f then xs ++ job ∷ [] else xs) a, q)

enqueue-Fate :
    (e : Env) (job : ℕ) (keys : List ℕ) (paths : List (Option ℕ)) (n : ℕ) (t : Tier)
    → Fate job t (enqueue_store e job keys paths n t)
unfolding enqueue_store accept_store undo_store
enqueue-Fate e job keys paths n t = (
  false,
  ground arith,
  ground (
    arith,
    lookup-put job job paths t.store_job_paths,
    lookup-del job job (put job paths t.store_job_paths),
  ),
)

lease-Fate :
    (e : Env) (job : ℕ) (keys : List ℕ) (paths : List (Option ℕ)) (n : ℕ) (t : Tier)
    → has job t.store_job_paths ≡ false
    → Fate job t (lease_store e job keys paths n t)
unfolding lease_store refuse_store
lease-Fate e job keys paths n t new_store =
    let t' = record t { leases = (pin_job e.siblings job paths t.leases).0 } in
    elim (Option-cases (pin_job e.siblings job paths t.leases).1) [
      | inl raised ↦ rw (raised, lease_store) (false, refl, new_store)
      | inr (true, given) ↦ rw (given, lease_store) (enqueue-Fate e job keys paths n t')
      | inr (false, given) ↦ rw (given, lease_store) (true, refl, new_store)
    ]

reserve-Fate :
    (e : Env) (job : ℕ) (keys : List ℕ) (t : Tier)
    → has job t.store_job_paths ≡ false
    → Fate job t (reserve_store e job keys t)
unfolding reserve_store refuse_store has_store_space get_available_bytes
reserve-Fate e job keys t new_store =
    let n = length keys * t.block_size in
    let (t', enough) = has_store_space e n t in
    let same : Steady t t' = ground arith in
    elim (Bool-cases enough) [
      | inl space ↦
          rw (space, reserve_store)
            (Fate-Steady job t t' (lease_store e job keys (paths_of e keys) n t') same
              (lease-Fate e job keys (paths_of e keys) n t' (rw same.1 new_store)))
      | inr full ↦
          rw (full, reserve_store) (true, ap (λ xs. xs ++ job ∷ []) same.0, rw same.1 new_store)
    ]

admit-Fate :
    (e : Env) (job : ℕ) (keys : List ℕ) (t : Tier)
    → has job t.store_job_paths ≡ false
    → Fate job t (admit_store e job keys t)
unfolding admit_store
admit-Fate e job keys t new_store =
    let (gate', pinned) = try_pin_store e.world e.world_later e.process job t.gate in
    elim (Bool-cases pinned) [
      | inl ok ↦
          rw (ok, admit_store) (reserve-Fate e job keys (record t { gate = gate' }) new_store)
      | inr refused ↦ rw (refused, admit_store) (true, refl, new_store)
    ]

poll-Steady : (e : Env) (t : Tier) → Steady t (maybe_schedule_eviction e (drain_evictions e t))
poll-Steady e t =
    let d = drain_evictions e t in
    Steady-trans t d (maybe_schedule_eviction e d) (drain-Steady e t) (schedule-Steady e d)

-- A store that is submitted while it is not in flight has one fate: it is appended to the
-- failed jobs and is not in flight, or the failed jobs stay as they are, and it is in flight
-- exactly if the call returns.
pub submit_store_fate :
    (e : Env) (job : ℕ) (keys : List ℕ) (t : Tier)
    → has job t.store_job_paths ≡ false
    → let (t', returns) = submit_store e job keys t in
      (fails : Bool) × (t'.failed_jobs
        ≡ (if fails then t.failed_jobs ++ job ∷ [] else t.failed_jobs))
      × (has job t'.store_job_paths ≡ (returns && not fails))
unfolding submit_store
submit_store_fate e job keys t new_store =
    let u = maybe_schedule_eviction e (drain_evictions e t) in
    let same = poll-Steady e t in
    Fate-Steady job t u (admit_store e job keys u) same
      (admit-Fate e job keys u (rw same.1 new_store))

-- What an accepted store leaves of the disk.
abbrev Fits : ℕ → ℕ → Tier → Tier → Type 0
Fits job n t t' =
    has job t'.store_job_paths ≡ true
    → (t'.reserved_store_bytes ≡ t.reserved_store_bytes + n)
      × (t'.available_bytes ≡ t.available_bytes)
      × (t'.min_free_bytes ≡ t.min_free_bytes)

enqueue-Fits :
    (e : Env) (job : ℕ) (keys : List ℕ) (paths : List (Option ℕ)) (n : ℕ) (t : Tier)
    → Fits job n t (enqueue_store e job keys paths n t).0
unfolding enqueue_store accept_store undo_store
enqueue-Fits e job keys paths n t flying =
    ground (arith, lookup-del job job (put job paths t.store_job_paths))

lease-Fits :
    (e : Env) (job : ℕ) (keys : List ℕ) (paths : List (Option ℕ)) (n : ℕ) (t : Tier)
    → has job t.store_job_paths ≡ false
    → Fits job n t (lease_store e job keys paths n t).0
unfolding lease_store refuse_store
lease-Fits e job keys paths n t new_store flying = ground (
  arith,
  enqueue-Fits e job keys paths n (record t { leases = (pin_job e.siblings job paths t.leases).0 }),
)

reserve_fits :
    (e : Env) (job : ℕ) (keys : List ℕ) (t : Tier)
    → has job t.store_job_paths ≡ false
    → t.min_free_bytes ≢ 0
    → let t' = (reserve_store e job keys t).0 in
      has job t'.store_job_paths ≡ true
      → t'.min_free_bytes + t'.reserved_store_bytes ≤ t'.available_bytes
unfolding reserve_store refuse_store has_store_space get_available_bytes
reserve_fits e job keys t new_store limited flying =
    let n = length keys * t.block_size in
    let t' = (has_store_space e n t).0 in
    ground (arith, lease-Fits e job keys (paths_of e keys) n t')

-- With a reserve that is not zero, if a store is submitted that is not in flight, and is in
-- flight afterwards, then the reserve and all reserved bytes, its own included, fit into the
-- available bytes that were read last.
pub accepted_store_fits :
    (e : Env) (job : ℕ) (keys : List ℕ) (t : Tier)
    → has job t.store_job_paths ≡ false
    → t.min_free_bytes ≢ 0
    → has job (submit_store e job keys t).0.store_job_paths ≡ true
    → let t' = (submit_store e job keys t).0 in
      t'.min_free_bytes + t'.reserved_store_bytes ≤ t'.available_bytes
unfolding submit_store admit_store
accepted_store_fits e job keys t new_store limited flying =
    let u = maybe_schedule_eviction e (drain_evictions e t) in
    let gate' = (try_pin_store e.world e.world_later e.process job u.gate).0 in
    ground (arith, poll-Steady e t, reserve_fits e job keys (record u { gate = gate' }))
