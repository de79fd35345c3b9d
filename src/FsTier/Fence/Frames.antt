-- ===== src/FsTier/Fence/Frames.antt =====
-- The calls that neither begin nor end a deletion leave the fence alone.
use deepseek_v4_flash_mi300x.Prelude.{
  ℕ, ◌≡◌, refl, ◌∙◌, Bool, Option, none, some, List, [], ◌∷◌, length, ◌*◌, get_or, arith,
}
use deepseek_v4_flash_mi300x.Prelude.Map
use deepseek_v4_flash_mi300x.Prelude.Map.{set_default}
use deepseek_v4_flash_mi300x.EvictionGate.{
  Gate, World, try_pin_store, pin_probe, pin_write, pin_done, release_store,
}
use deepseek_v4_flash_mi300x.ShardLeases.{Siblings, Index, release_request_pins}
use deepseek_v4_flash_mi300x.ShardLeases.Leases.{pin_job, pin_job_shards, release_job}
use deepseek_v4_flash_mi300x.ShardLeases.Lru.{
  use_shard, access_shard, for_paths, record_store, record_access,
}
use deepseek_v4_flash_mi300x.FsTier.{Tier, Env}
use deepseek_v4_flash_mi300x.FsTier.Space.{get_available_bytes, has_store_space}
use deepseek_v4_flash_mi300x.FsTier.Jobs.{
  paths_of, refuse_store, accept_store, undo_store, enqueue_store, lease_store, reserve_store,
  admit_store, refuse_load, accept_load, undo_load, submit_load, give_back, use_paths, announce,
  learn, settle, settle_all,
}
use deepseek_v4_flash_mi300x.FsTier.Fence.{Same, Same-trans}

pin_store_fence :
    (w w' : World) (i job : ℕ) (g : Gate)
    → let g' = (try_pin_store w w' i job g).0 in
      (g'.owns_eviction ≡ g.owns_eviction) × (g'.writes_fenced ≡ g.writes_fenced)
unfolding try_pin_store pin_probe pin_write pin_done
pin_store_fence w w' i job g = ground arith

release_store_fence :
    (job : ℕ) (g : Gate)
    → let g' = release_store job g in
      (g'.owns_eviction ≡ g.owns_eviction) × (g'.writes_fenced ≡ g.writes_fenced)
unfolding release_store
release_store_fence job g = ground arith

pin_job_evicting :
    (e : Siblings) (job : ℕ) (paths : List (Option ℕ)) (ix : Index)
    → (pin_job e job paths ix).0.evicting ≡ ix.evicting
unfolding pin_job pin_job_shards
pin_job_evicting e job paths ix = ground arith

space-Same : (e : Env) (n : ℕ) (t : Tier) → Same t (has_store_space e n t).0
unfolding has_store_space get_available_bytes
space-Same e n t = ground arith

enqueue_store-Same :
    (e : Env) (job : ℕ) (keys : List ℕ) (paths : List (Option ℕ)) (n : ℕ) (t : Tier)
    → Same t (enqueue_store e job keys paths n t).0
unfolding enqueue_store accept_store undo_store release_job
enqueue_store-Same e job keys paths n t = ground (arith, release_store_fence job t.gate)

lease_store-Same :
    (e : Env) (job : ℕ) (keys : List ℕ) (paths : List (Option ℕ)) (n : ℕ) (t : Tier)
    → Same t (lease_store e job keys paths n t).0
unfolding lease_store refuse_store
lease_store-Same e job keys paths n t =
    let t' = record t { leases = (pin_job e.siblings job paths t.leases).0 } in
    ground (
      arith,
      pin_job_evicting e.siblings job paths t.leases,
      release_store_fence job t.gate,
      enqueue_store-Same e job keys paths n t',
    )

reserve_store-Same :
    (e : Env) (job : ℕ) (keys : List ℕ) (t : Tier) → Same t (reserve_store e job keys t).0
unfolding reserve_store refuse_store
reserve_store-Same e job keys t =
    let n = length keys * t.block_size in
    let t' = (has_store_space e n t).0 in
    ground (
      arith,
      space-Same e n t,
      release_store_fence job t'.gate,
      lease_store-Same e job keys (paths_of e keys) n t',
    )

pub admit_store-Same :
    (e : Env) (job : ℕ) (keys : List ℕ) (t : Tier) → Same t (admit_store e job keys t).0
unfolding admit_store
admit_store-Same e job keys t =
    let gate' = (try_pin_store e.world e.world_later e.process job t.gate).0 in
    ground (
      arith,
      pin_store_fence e.world e.world_later e.process job t.gate,
      reserve_store-Same e job keys (record t { gate = gate' }),
    )

pub submit_load-Same :
    (e : Env) (job req : ℕ) (keys : List ℕ) (t : Tier) → Same t (submit_load e job req keys t).0
unfolding submit_load accept_load undo_load refuse_load release_request_pins release_job
submit_load-Same e job req keys t =
    ground (arith, pin_job_evicting e.siblings job (paths_of e keys) t.leases)

for_paths_evicting :
    (f : ℕ → Index → Index)
    → ((s : ℕ) (ix : Index) → (f s ix).evicting ≡ ix.evicting)
    → (paths : List (Option ℕ)) (ix : Index) → (for_paths f paths ix).0.evicting ≡ ix.evicting
for_paths_evicting f keep [] ix = refl
for_paths_evicting f keep (none ∷ paths) ix = refl
for_paths_evicting f keep (some s ∷ paths) ix = for_paths_evicting f keep paths (f s ix) ∙ keep s ix

use_paths_evicting :
    (e : Env) (stored loaded : List (Option ℕ)) (ix : Index)
    → (use_paths e stored loaded ix).evicting ≡ ix.evicting
unfolding use_paths record_store record_access
use_paths_evicting e stored loaded ix =
    for_paths_evicting (access_shard e.now) (λ s ix. ground arith) loaded
      (for_paths (use_shard e.now) stored ix).0
    ∙ for_paths_evicting (use_shard e.now) (λ s ix. refl) stored ix

give_back-Same : (job : ℕ) (t : Tier) → Same t (give_back job t)
unfolding give_back release_job
give_back-Same job t = ground (arith, release_store_fence job t.gate)

learn-Same :
    (e : Env) (success : Bool) (stored loaded : List (Option ℕ)) (keys : List ℕ) (t : Tier)
    → Same t (learn e success stored loaded keys t)
unfolding learn
learn-Same e success stored loaded keys t =
    ground (arith, use_paths_evicting e stored loaded t.leases)

announce-Same : (job : ℕ) (success : Bool) (t : Tier) → Same t (announce job success t)
unfolding announce
announce-Same job success t = ground arith

settle-Same : (e : Env) (job : ℕ) (success : Bool) (t : Tier) → Same t (settle e job success t)
unfolding settle
settle-Same e job success t =
    let back = give_back job t in
    let learned =
      learn e success (get_or (Map.lookup job t.store_job_paths) [])
        (get_or (Map.lookup job t.load_job_paths) []) (get_or (Map.lookup job t.load_job_keys) [])
        back in
    Same-trans t back (announce job success learned) (give_back-Same job t) (
      Same-trans back learned (announce job success learned) (learn-Same e success _ _ _ back)
        (announce-Same job success learned))

pub settle_all-Same : (e : Env) (done : List (ℕ × Bool)) (t : Tier) → Same t (settle_all e done t)
unfolding settle_all
settle_all-Same e [] t = (refl, refl, refl, refl, refl)
settle_all-Same e ((job, success) ∷ done) t =
    let t' = settle e job success t in
    Same-trans t t' (settle_all e done t') (settle-Same e job success t) (settle_all-Same e done t')
