-- ===== src/Tests/EvictionGate.antt =====
-- Runs of the eviction gates of two processes (patches/tiering-fs-bounded-lru.py).
use deepseek_v4_flash_mi300x.Prelude.{
  ℕ, ◌≡◌, refl, true, false, some, List, [], ◌∷◌, add, discard, arith,
}
use deepseek_v4_flash_mi300x.Prelude.Map.{lookup, put}
use deepseek_v4_flash_mi300x.EvictionGate.{
  Gate, unlocked, shared, init, any_other, try_begin_eviction, try_fence_writes, pin_probe,
  pin_write, pin_done, try_pin_store, release_store, Action, starts, begins, fences, probes, writes,
  probed, releases, step, run,
}
use deepseek_v4_flash_mi300x.EvictionGate.Invariant.{run_empty-Inv}
use deepseek_v4_flash_mi300x.EvictionGate.Exclusion.{
  sole_owner, fence_excludes_stores, owner_blocks_stores, drained_fence, idle_pins,
}

-- process 1 owns eviction and has fenced the writes; process 2 has released its store
abbrev fenced_acts : List Action
fenced_acts =
    starts 1
    ∷ starts 2
    ∷ probes 2
    ∷ writes 2 5
    ∷ probed 2
    ∷ begins 1
    ∷ fences 1
    ∷ releases 2 5
    ∷ fences 1
    ∷ []

abbrev owned_acts : List Action
owned_acts = starts 1 ∷ starts 2 ∷ begins 1 ∷ []

abbrev idle_acts : List Action
idle_acts = starts 1 ∷ starts 2 ∷ []

abbrev owner : Gate
owner = (try_begin_eviction [] 1 init).0

abbrev fencer : Gate
fencer = (try_fence_writes [] 1 owner).0

abbrev first : ℕ
first = 1

sole_owner_example : first ≡ first
unfolding run step init try_begin_eviction any_other lookup put
sole_owner_example = sole_owner owned_acts first first owner owner refl refl refl refl

fence_excludes_stores_example : init.store_jobs ≡ []
unfolding run step init try_begin_eviction try_fence_writes pin_probe pin_write pin_done
    release_store any_other lookup put add discard
fence_excludes_stores_example = fence_excludes_stores fenced_acts 1 2 fencer init refl refl refl

owner_blocks_stores_example : try_pin_store (run [] owned_acts) [] 2 5 init ≡ (init, false)
unfolding run step init try_begin_eviction any_other lookup put
owner_blocks_stores_example =
    owner_blocks_stores (run [] owned_acts) [] 1 2 5 owner init (run_empty-Inv owned_acts) refl refl
      refl

only_two : (j : ℕ) (h : Gate) → lookup j (run [] owned_acts) ≡ some h → h.store_jobs ≡ []
unfolding run step init try_begin_eviction any_other lookup put
only_two j h l = ground arith

drained_fence_example :
    ((try_fence_writes (run [] owned_acts) 1 owner).1 ≡ true)
    × ((try_fence_writes (run [] owned_acts) 1 owner).0.writes_fenced ≡ true)
unfolding run step init try_begin_eviction any_other lookup put
drained_fence_example =
    drained_fence (run [] owned_acts) 1 owner (run_empty-Inv owned_acts) refl refl only_two

no_owner : (j : ℕ) (h : Gate) → lookup j (run [] idle_acts) ≡ some h → h.owns_eviction ≡ false
unfolding run step init lookup put
no_owner j h l = ground arith

idle_pins_example :
    ((try_pin_store (run [] idle_acts) (run [] idle_acts) 2 5 init).1 ≡ true)
    × ((try_pin_store (run [] idle_acts) (run [] idle_acts) 2 5 init).0 ≡ record init {
      write = shared;
      store_lease_held = true;
      store_jobs = add 5 [];
      intent_probe = unlocked;
    })
unfolding run step init lookup put
idle_pins_example =
    idle_pins (run [] idle_acts) 2 5 init (run_empty-Inv idle_acts) refl refl no_owner
