-- ===== src/EvictionGate/Exclusion.antt =====
-- Mutual exclusion of eviction and stores across processes, and the way out of a fence.
use deepseek_v4_flash_mi300x.Prelude.{
  ℕ, ◌≡◌, inl, inr, true, false, some, List, [], ◌==◌, arith, add, Bool-cases,
}
use deepseek_v4_flash_mi300x.Prelude.Map.{lookup}
use deepseek_v4_flash_mi300x.EvictionGate.{
  unlocked, shared, Gate, World, locks_writes, excludes_intent, excludes_writes, try_fence_writes,
  try_pin_store, finish_eviction, close, eviction_active, Action, run,
}
use deepseek_v4_flash_mi300x.EvictionGate.Flock.{any_other-false, any_other-true}
use deepseek_v4_flash_mi300x.EvictionGate.Invariant.{GateOk, Inv, run_empty-Inv}

-- In every interleaving of system calls from no processes, two processes that own eviction are
-- one.
pub sole_owner :
    (acts : List Action) (i j : ℕ) (g h : Gate)
    → lookup i (run [] acts) ≡ some g
    → lookup j (run [] acts) ≡ some h
    → g.owns_eviction ≡ true
    → h.owns_eviction ≡ true
    → i ≡ j
sole_owner acts i j g h li lj a b = elim (Bool-cases (i == j)) [
  | inl same ↦ ground arith
  | inr apart ↦
      let c = (run_empty-Inv acts).pairs i j g h (λ e. ground arith) li lj in
      absurd (ground (arith, c))
]

-- In every interleaving of system calls from no processes, while one process has fenced the
-- writes no process, itself included, has an admitted store.
pub fence_excludes_stores :
    (acts : List Action) (i j : ℕ) (g h : Gate)
    → lookup i (run [] acts) ≡ some g
    → lookup j (run [] acts) ≡ some h
    → g.writes_fenced ≡ true
    → h.store_jobs ≡ []
fence_excludes_stores acts i j g h li lj f =
    let v = run_empty-Inv acts in
    elim (Bool-cases (i == j)) [
      | inl same ↦ let e : some h ≡ some g = ground arith in ground (arith, v.each j h lj)
      | inr apart ↦
          let c = v.pairs i j g h (λ e. ground arith) li lj in ground (arith, c, v.each j h lj)
    ]

-- In a world where the invariant of the gates holds, while a process owns eviction,
-- `try_pin_store` is refused in every process and changes nothing, whatever the world is when
-- its second system call is made.
pub owner_blocks_stores :
    (w w' : World) (i j job : ℕ) (g h : Gate)
    → Inv w
    → lookup i w ≡ some g
    → lookup j w ≡ some h
    → g.owns_eviction ≡ true
    → try_pin_store w w' j job h ≡ (h, false)
unfolding try_pin_store
owner_blocks_stores w w' i j job g h v li lj o = elim (Bool-cases (i == j)) [
  | inl same ↦ let e : some h ≡ some g = ground arith in ground arith
  | inr apart ↦ ground (
    arith,
    v.each i g li,
    any_other-true j i excludes_intent w g li (λ e. ground arith) (ground (arith, v.each i g li)),
  )
]

-- In a world where the invariant of the gates holds, once no process has an admitted store, the
-- process that owns eviction gets its fence.
pub drained_fence :
    (w : World) (i : ℕ) (g : Gate)
    → Inv w
    → lookup i w ≡ some g
    → g.owns_eviction ≡ true
    → ((j : ℕ) (h : Gate) → lookup j w ≡ some h → h.store_jobs ≡ [])
    → ((try_fence_writes w i g).1 ≡ true) × ((try_fence_writes w i g).0.writes_fenced ≡ true)
unfolding try_fence_writes
drained_fence w i g v li o drained =
    let none_locks = any_other-false i locks_writes w (λ j h l d.
      ground (arith, drained j h l, v.each j h l, v.pairs i j g h (λ e. d (ground arith)) li l)) in
    ground (arith, none_locks, drained i g li, v.each i g li)

-- In a world where the invariant of the gates holds and no process owns eviction, an open gate
-- admits a store: it then holds the shared write lease and the job, and no intent lock.
pub idle_pins :
    (w : World) (i job : ℕ) (g : Gate)
    → Inv w
    → lookup i w ≡ some g
    → g.closed ≡ false
    → ((j : ℕ) (h : Gate) → lookup j w ≡ some h → h.owns_eviction ≡ false)
    → ((try_pin_store w w i job g).1 ≡ true)
      × ((try_pin_store w w i job g).0 ≡ record g {
        write = shared;
        store_lease_held = true;
        store_jobs = add job g.store_jobs;
        intent_probe = unlocked;
      })
unfolding try_pin_store
idle_pins w i job g v li c idle =
    let open_intent =
      any_other-false i excludes_intent w (λ j h l d. ground (arith, idle j h l, v.each j h l)) in
    let open_writes =
      any_other-false i excludes_writes w (λ j h l d. ground (arith, idle j h l, v.each j h l)) in
    ground (arith, open_intent, open_writes, idle i g li, v.each i g li)

-- For a gate whose locks are what its fields say: `finish_eviction` leaves no ownership, fence
-- or lock of an eviction and keeps the stores, and after `close` the gate is closed and refuses
-- every store unchanged.
pub close_frees :
    (w w' : World) (i job : ℕ) (g : Gate)
    → GateOk g
    → ((finish_eviction g).owns_eviction ≡ false)
      × ((finish_eviction g).writes_fenced ≡ false)
      × ((finish_eviction g).intent ≡ unlocked)
      × ((finish_eviction g).eviction_write ≡ unlocked)
      × ((finish_eviction g).store_jobs ≡ g.store_jobs)
      × ((close g).closed ≡ true)
      × (try_pin_store w w' i job (close g) ≡ (close g, false))
unfolding finish_eviction close try_pin_store
close_frees w w' i job g ok = ground arith

-- In a world where the invariant of the gates holds, if some process owns eviction, every
-- process is told that eviction is active.
pub eviction_active_owner :
    (w : World) (i j : ℕ) (g h : Gate)
    → Inv w
    → lookup i w ≡ some g
    → lookup j w ≡ some h
    → h.owns_eviction ≡ true
    → eviction_active w i g ≡ true
unfolding eviction_active
eviction_active_owner w i j g h v li lj o = elim (Bool-cases (i == j)) [
  | inl same ↦ let e : some h ≡ some g = ground arith in ground arith
  | inr apart ↦ ground (
    arith,
    v.each j h lj,
    any_other-true i j excludes_intent w h lj (λ e. ground arith) (ground (arith, v.each j h lj)),
  )
]

-- In a world where the invariant of the gates holds, if no process owns eviction, every process
-- is told that eviction is not active.
pub eviction_inactive :
    (w : World) (i : ℕ) (g : Gate)
    → Inv w
    → lookup i w ≡ some g
    → ((j : ℕ) (h : Gate) → lookup j w ≡ some h → h.owns_eviction ≡ false)
    → eviction_active w i g ≡ false
unfolding eviction_active
eviction_inactive w i g v li idle =
    let open_intent =
      any_other-false i excludes_intent w (λ j h l d. ground (arith, idle j h l, v.each j h l)) in
    ground (arith, open_intent, idle i g li, v.each i g li)
