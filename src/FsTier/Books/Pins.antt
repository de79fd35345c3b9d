-- ===== src/FsTier/Books/Pins.antt =====
-- What pinning a store or a job does to the jobs that the gate and the index count
-- (patches/tiering-fs-manager.disk-reserve.py).
use deepseek_v4_flash_mi300x.Prelude.{
  ℕ, ◌≡◌, ◌≢◌, true, not, ◌&&◌, ◌||◌, Option, none, some, List, ◌==◌, mem, mem-add, mem-discard,
  Option-cases, inl, inr, arith,
}
use deepseek_v4_flash_mi300x.Prelude.Map.{has, lookup-put, lookup-del}
use deepseek_v4_flash_mi300x.EvictionGate.{
  Gate, World, try_pin_store, pin_probe, pin_write, pin_done, release_store,
}
use deepseek_v4_flash_mi300x.ShardLeases.{Siblings, Index}
use deepseek_v4_flash_mi300x.ShardLeases.Leases.{resolve_all, pin_job_shards, pin_job, release_job}

pub pin_store_jobs :
    (w w' : World) (i job j : ℕ) (g : Gate)
    → let (g', ok) = try_pin_store w w' i job g in
      mem j g'.store_jobs ≡ ((ok && job == j) || mem j g.store_jobs)
unfolding try_pin_store pin_probe pin_write pin_done
pin_store_jobs w w' i job j g = ground (arith, mem-add job j g.store_jobs)

pub release_store_jobs :
    (job j : ℕ) (g : Gate)
    → mem j (release_store job g).store_jobs ≡ (not (job == j) && mem j g.store_jobs)
unfolding release_store
release_store_jobs job j g = ground (arith, mem-discard job j g.store_jobs)

pub pin_job_taken :
    (e : Siblings) (job j : ℕ) (paths : List (Option ℕ)) (ix : Index)
    → (pin_job e job paths ix).1 ≡ some true
    → has j (pin_job e job paths ix).0.job_shards ≡ (job == j || has j ix.job_shards)
unfolding pin_job pin_job_shards
pin_job_taken e job j paths ix h = elim (Option-cases (resolve_all paths)) [
  | inl bad ↦ absurd (ground arith)
  | inr (shards, good) ↦ ground (arith, lookup-put job j shards ix.job_shards)
]

pub pin_job_refused :
    (e : Siblings) (job : ℕ) (paths : List (Option ℕ)) (ix : Index)
    → (pin_job e job paths ix).1 ≢ some true
    → (pin_job e job paths ix).0.job_shards ≡ ix.job_shards
unfolding pin_job pin_job_shards
pin_job_refused e job paths ix h = ground arith

pub pin_job_answers :
    (e : Siblings) (job : ℕ) (paths : List (Option ℕ)) (ix : Index)
    → resolve_all paths ≢ none
    → (pin_job e job paths ix).1 ≢ none
unfolding pin_job
pin_job_answers e job paths ix h = ground arith

pub release_job_shards :
    (job j : ℕ) (ix : Index)
    → has j (release_job job ix).job_shards ≡ (not (job == j) && has j ix.job_shards)
unfolding release_job
release_job_shards job j ix = ground (arith, lookup-del job j ix.job_shards)
