-- ===== src/FsTier/Books.antt =====
-- The tier's books: what its maps, its gate and its leases say of the jobs in flight.
use deepseek_v4_flash_mi300x.Prelude.{
  ℕ, ◌+◌, ◌-◌, ◌≡◌, refl, sym, ◌∙◌, Bool, true, false, not, ◌&&◌, ◌||◌, Option, none, some, List,
  [], ◌∷◌, length, ltb, leb, ◌==◌, if◌then◌else◌, get_or, is_some, mem, add, discard, mem-add,
  mem-discard, Bool-cases, Option-cases, inl, inr, arith,
}
use deepseek_v4_flash_mi300x.Prelude.Map.{Map, lookup, has, put, del, lookup-put, lookup-del}
use deepseek_v4_flash_mi300x.Prelude.Totals.{
  IsDict, put-IsDict, del-IsDict, total, total-put, total-del, worth-le-total,
}
use deepseek_v4_flash_mi300x.EvictionGate.{
  Gate, World, try_begin_eviction, try_fence_writes, try_pin_store, pin_probe, pin_write, pin_done,
  release_store, finish_eviction, unfence, disown,
}
use deepseek_v4_flash_mi300x.ShardLeases.{Siblings, Index}
use deepseek_v4_flash_mi300x.ShardLeases.Lru
use deepseek_v4_flash_mi300x.ShardLeases.Lru.{Stat, begin_oldest_eviction}
use deepseek_v4_flash_mi300x.FsTier.{Tier, Env, Worker, submit, get_finished}
use deepseek_v4_flash_mi300x.FsTier.Space.{get_available_bytes, has_store_space}
use deepseek_v4_flash_mi300x.FsTier.Eviction.{
  collect, drain_evictions, take_ownership, evict_oldest, evict_next, schedule_next, skip_missing,
  maybe_schedule_eviction, submit_path,
}
pub mod Pins
pub mod Stores
pub mod Loads

abbrev pub id : ℕ → ℕ
id n = n

-- The reserve is the sum of the jobs' reservations; a store in flight has a reservation and a lease
-- of the gate; a job in flight has leases of its shards; and nobody else has any.
pub record Inv (t : Tier) : Type 0 where
  pub reserved : t.reserved_store_bytes ≡ total id t.store_job_reserved_bytes
  pub reserved_dict : IsDict t.store_job_reserved_bytes
  pub stored : (j : ℕ) → has j t.store_job_reserved_bytes ≡ has j t.store_job_paths
  pub gated : (j : ℕ) → mem j t.gate.store_jobs ≡ has j t.store_job_paths
  pub leased :
      (j : ℕ) → has j t.leases.job_shards ≡ (has j t.store_job_paths || has j t.load_job_paths)
  pub keyed : (j : ℕ) → has j t.load_job_keys ≡ has j t.load_job_paths

-- Two tiers with the same books.
abbrev pub Same : Tier → Tier → Type 0
Same t t' =
    (t'.reserved_store_bytes ≡ t.reserved_store_bytes)
    × (t'.store_job_reserved_bytes ≡ t.store_job_reserved_bytes)
    × (t'.store_job_paths ≡ t.store_job_paths)
    × (t'.gate.store_jobs ≡ t.gate.store_jobs)
    × (t'.leases.job_shards ≡ t.leases.job_shards)
    × (t'.load_job_paths ≡ t.load_job_paths)
    × (t'.load_job_keys ≡ t.load_job_keys)

pub Same-Inv : (t t' : Tier) → Same t t' → Inv t → Inv t'
Same-Inv t t' (a, b, c, d, e, f, g) v = record {
  reserved = rw (a, b) v.reserved;
  reserved_dict = rw b v.reserved_dict;
  stored = λ j. rw (b, c) (v.stored j);
  gated = λ j. rw (c, d) (v.gated j);
  leased = λ j. rw (c, e, f) (v.leased j);
  keyed = λ j. rw (f, g) (v.keyed j);
}

pub Same-trans : (t u v : Tier) → Same t u → Same u v → Same t v
Same-trans t u v (a, b, c, d, e, f, g) (a', b', c', d', e', f', g') =
    (a' ∙ a, b' ∙ b, c' ∙ c, d' ∙ d, e' ∙ e, f' ∙ f, g' ∙ g)

begin_jobs : (w : World) (i : ℕ) (g : Gate) → (try_begin_eviction w i g).0.store_jobs ≡ g.store_jobs
unfolding try_begin_eviction
begin_jobs w i g = ground arith

fence_jobs : (w : World) (i : ℕ) (g : Gate) → (try_fence_writes w i g).0.store_jobs ≡ g.store_jobs
unfolding try_fence_writes
fence_jobs w i g = ground arith

finish_jobs : (g : Gate) → (finish_eviction g).store_jobs ≡ g.store_jobs
unfolding finish_eviction unfence disown
finish_jobs g = ground arith

finish_shards :
    (s : ℕ) (success : Bool) (stat : Stat) (ix : Index)
    → (Lru.finish_eviction s success stat ix).job_shards ≡ ix.job_shards
unfolding Lru.finish_eviction
finish_shards s success stat ix = ground arith

begin_shards :
    (e : Siblings) (ix : Index) → (begin_oldest_eviction e ix).0.job_shards ≡ ix.job_shards
unfolding begin_oldest_eviction
begin_shards e ix = ground arith

available-Same : (e : Env) (force : Bool) (t : Tier) → Same t (get_available_bytes e force t).0
unfolding get_available_bytes
available-Same e force t = ground arith

pub has_store_space-Same : (e : Env) (n : ℕ) (t : Tier) → Same t (has_store_space e n t).0
unfolding has_store_space get_available_bytes
has_store_space-Same e n t = ground arith

collect-Same : (e : Env) (done : List (ℕ × Bool)) (t : Tier) → Same t (collect e done t)
unfolding collect
collect-Same e [] t = (refl, refl, refl, refl, refl, refl, refl)
collect-Same e ((path, success) ∷ done) t =
    let t' = record t {
      leases = Lru.finish_eviction path success (e.stat path) t.leases;
      last_space_check = 0;
    } in
    Same-trans t t' (collect e done t')
      (refl, refl, refl, refl, finish_shards path success (e.stat path) t.leases, refl, refl)
      (collect-Same e done t')

pub drain_evictions-Same : (e : Env) (t : Tier) → Same t (drain_evictions e t)
unfolding drain_evictions get_finished
drain_evictions-Same e t = elim (Option-cases t.worker) [
  | inl off ↦ rw (off, drain_evictions) (refl, refl, refl, refl, refl, refl, refl)
  | inr (w, on) ↦
      rw (on, drain_evictions)
        (collect-Same e w.finished (record t { worker = some (get_finished w).0 }))
]

take_ownership-Same : (e : Env) (n : ℕ) (t : Tier) → Same t (take_ownership e n t)
unfolding take_ownership
take_ownership-Same e n t = ground (arith, begin_jobs e.world e.process t.gate)

evict_oldest-Same : (e : Env) (t : Tier) → Same t (evict_oldest e t)
unfolding evict_oldest
evict_oldest-Same e t =
    ground (arith, fence_jobs e.world e.process t.gate, begin_shards e.siblings t.leases)

evict_next-Same : (e : Env) (n : ℕ) (paths : List ℕ) (t : Tier) → Same t (evict_next e n paths t)
unfolding evict_next
evict_next-Same e n (path ∷ paths) t = ground (arith, fence_jobs e.world e.process t.gate)
evict_next-Same e n [] t =
    ground (arith, finish_jobs t.gate, evict_oldest-Same e (record t { orphan_tombstones = [] }))

schedule_next-Same : (e : Env) (n : ℕ) (w : Worker) (t : Tier) → Same t (schedule_next e n w t)
unfolding schedule_next
schedule_next-Same e n w t =
    ground (arith, evict_next-Same e n (skip_missing e.exists t.orphan_tombstones) t)

pub maybe_schedule_eviction-Same : (e : Env) (t : Tier) → Same t (maybe_schedule_eviction e t)
unfolding maybe_schedule_eviction
maybe_schedule_eviction-Same e t = elim (Option-cases t.worker) [
  | inl off ↦ rw (off, maybe_schedule_eviction) (refl, refl, refl, refl, refl, refl, refl)
  | inr (w, on) ↦
      let (t', n) = get_available_bytes e false t in
      let u = take_ownership e n t' in
      rw (on, maybe_schedule_eviction)
        (Same-trans t t' (schedule_next e n w u) (available-Same e false t) (
          Same-trans t' u (schedule_next e n w u) (take_ownership-Same e n t')
            (schedule_next-Same e n w u)))
]
