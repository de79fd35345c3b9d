-- ===== src/FsTier/Books/Stores.antt =====
-- `submit_store` keeps the books: on each of its ways out a store that is not in flight holds
-- neither reserve, nor gate, nor shards.
use deepseek_v4_flash_mi300x.Prelude.{
  ℕ, ◌*◌, ◌≡◌, ◌≢◌, Bool, true, false, ◌&&◌, ◌||◌, Option, none, List, length, ◌==◌, mem,
  Bool-cases, Option-cases, inl, inr, arith,
}
use deepseek_v4_flash_mi300x.Prelude.Map.{has, put, lookup-put, lookup-del}
use deepseek_v4_flash_mi300x.Prelude.Totals.{
  IsDict, put-IsDict, del-IsDict, total, total-put, total-del,
}
use deepseek_v4_flash_mi300x.EvictionGate.{try_pin_store}
use deepseek_v4_flash_mi300x.ShardLeases.Leases.{resolve_all, pin_job}
use deepseek_v4_flash_mi300x.FsTier.{Tier, Env}
use deepseek_v4_flash_mi300x.FsTier.Space.{has_store_space}
use deepseek_v4_flash_mi300x.FsTier.Eviction.{drain_evictions, maybe_schedule_eviction}
use deepseek_v4_flash_mi300x.FsTier.Jobs.{
  paths_of, refuse_store, accept_store, undo_store, enqueue_store, lease_store, reserve_store,
  admit_store, submit_store,
}
use deepseek_v4_flash_mi300x.FsTier.Books.{
  id, Inv, Same, Same-Inv, Same-trans, has_store_space-Same, drain_evictions-Same,
  maybe_schedule_eviction-Same,
}
use deepseek_v4_flash_mi300x.FsTier.Books.Pins.{
  pin_store_jobs, release_store_jobs, pin_job_taken, pin_job_refused, pin_job_answers,
  release_job_shards,
}

-- The job has the gate's lease, and, when `taken`, its shards; it is not in flight yet.
record Held (job : ℕ) (taken : Bool) (t : Tier) : Type 0 where
  reserved : t.reserved_store_bytes ≡ total id t.store_job_reserved_bytes
  reserved_dict : IsDict t.store_job_reserved_bytes
  stored : (j : ℕ) → has j t.store_job_reserved_bytes ≡ has j t.store_job_paths
  gated : (j : ℕ) → mem j t.gate.store_jobs ≡ (job == j || has j t.store_job_paths)
  leased :
      (j : ℕ)
      → has j t.leases.job_shards
        ≡ ((taken && job == j) || (has j t.store_job_paths || has j t.load_job_paths))
  keyed : (j : ℕ) → has j t.load_job_keys ≡ has j t.load_job_paths
  new_store : has job t.store_job_paths ≡ false
  new_load : has job t.load_job_paths ≡ false

refuse_store-Inv : (job : ℕ) (t : Tier) → Held job false t → Inv (refuse_store job t)
unfolding refuse_store
refuse_store-Inv job t h = record {
  reserved = h.reserved;
  reserved_dict = h.reserved_dict;
  stored = h.stored;
  gated = λ j. ground (arith, release_store_jobs job j t.gate, h.gated j, h.new_store);
  leased = λ j. ground (arith, h.leased j);
  keyed = h.keyed;
}

accept_store-Inv :
    (job : ℕ) (keys : List ℕ) (paths : List (Option ℕ)) (n : ℕ) (t : Tier)
    → Held job true t
    → Inv (accept_store job keys paths n t)
unfolding accept_store
accept_store-Inv job keys paths n t h = record {
  reserved =
      ground (
        arith,
        h.reserved,
        h.stored job,
        h.new_store,
        total-put id job n t.store_job_reserved_bytes,
      );
  reserved_dict = put-IsDict job n t.store_job_reserved_bytes h.reserved_dict;
  stored = λ j. ground (
    arith,
    h.stored j,
    lookup-put job j n t.store_job_reserved_bytes,
    lookup-put job j paths t.store_job_paths,
  );
  gated = λ j. ground (arith, h.gated j, lookup-put job j paths t.store_job_paths);
  leased = λ j. ground (arith, h.leased j, lookup-put job j paths t.store_job_paths);
  keyed = h.keyed;
}

undo_store-Inv :
    (job : ℕ) (keys : List ℕ) (paths : List (Option ℕ)) (n : ℕ) (t : Tier)
    → Held job true t
    → Inv (undo_store job n (accept_store job keys paths n t))
unfolding accept_store undo_store
undo_store-Inv job keys paths n t h =
    let v = accept_store-Inv job keys paths n t h in
    let m = put job n t.store_job_reserved_bytes in
    let p = put job paths t.store_job_paths in
    record {
      reserved = ground (
        arith,
        v.reserved,
        total-del id job m v.reserved_dict,
        lookup-put job job n t.store_job_reserved_bytes,
      );
      reserved_dict = del-IsDict job m v.reserved_dict;
      stored = λ j. ground (arith, v.stored j, lookup-del job j m, lookup-del job j p);
      gated = λ j. ground (arith, v.gated j, release_store_jobs job j t.gate, lookup-del job j p);
      leased = λ j.
          ground
            (arith, v.leased j, release_job_shards job j t.leases, lookup-del job j p, h.new_load);
      keyed = v.keyed;
    }

enqueue_store-Inv :
    (e : Env) (job : ℕ) (keys : List ℕ) (paths : List (Option ℕ)) (n : ℕ) (t : Tier)
    → Held job true t
    → Inv (enqueue_store e job keys paths n t).0
unfolding enqueue_store
enqueue_store-Inv e job keys paths n t h = elim (Bool-cases e.enqueues) [
  | inl ok ↦ rw ok (accept_store-Inv job keys paths n t h)
  | inr raised ↦ rw raised (undo_store-Inv job keys paths n t h)
]

lease_store-Inv :
    (e : Env) (job : ℕ) (keys : List ℕ) (paths : List (Option ℕ)) (n : ℕ) (t : Tier)
    → resolve_all paths ≢ none
    → Held job false t
    → Inv (lease_store e job keys paths n t).0
unfolding lease_store
lease_store-Inv e job keys paths n t good h =
    let t' = record t { leases = (pin_job e.siblings job paths t.leases).0 } in
    elim (Option-cases (pin_job e.siblings job paths t.leases).1) [
      | inl none_given ↦ absurd (pin_job_answers e.siblings job paths t.leases good none_given)
      | inr (true, given) ↦
          rw (given, lease_store)
            (enqueue_store-Inv e job keys paths n t' (record {
              reserved = h.reserved;
              reserved_dict = h.reserved_dict;
              stored = h.stored;
              gated = h.gated;
              leased = λ j.
                  ground (arith, h.leased j, pin_job_taken e.siblings job j paths t.leases given);
              keyed = h.keyed;
              new_store = h.new_store;
              new_load = h.new_load;
            }))
      | inr (false, given) ↦
          let same = pin_job_refused e.siblings job paths t.leases (λ q. ground arith) in
          rw (given, lease_store)
            (refuse_store-Inv job t' (record {
              reserved = h.reserved;
              reserved_dict = h.reserved_dict;
              stored = h.stored;
              gated = h.gated;
              leased = λ j. rw same (h.leased j);
              keyed = h.keyed;
              new_store = h.new_store;
              new_load = h.new_load;
            }))
    ]

Same-Held : (job : ℕ) (t t' : Tier) → Same t t' → Held job false t → Held job false t'
Same-Held job t t' (a, b, c, d, e, f, g) h = record {
  reserved = rw (a, b) h.reserved;
  reserved_dict = rw b h.reserved_dict;
  stored = λ j. rw (b, c) (h.stored j);
  gated = λ j. rw (c, d) (h.gated j);
  leased = λ j. rw (c, e, f) (h.leased j);
  keyed = λ j. rw (f, g) (h.keyed j);
  new_store = rw c h.new_store;
  new_load = rw f h.new_load;
}

reserve_store-Inv :
    (e : Env) (job : ℕ) (keys : List ℕ) (t : Tier)
    → resolve_all (paths_of e keys) ≢ none
    → Held job false t
    → Inv (reserve_store e job keys t).0
unfolding reserve_store
reserve_store-Inv e job keys t good h =
    let n = length keys * t.block_size in
    let (t', enough) = has_store_space e n t in
    let h' = Same-Held job t t' (has_store_space-Same e n t) h in
    elim (Bool-cases enough) [
      | inl space ↦
          rw (space, reserve_store) (lease_store-Inv e job keys (paths_of e keys) n t' good h')
      | inr full ↦ rw (full, reserve_store) (refuse_store-Inv job t' h')
    ]

admit_store-Inv :
    (e : Env) (job : ℕ) (keys : List ℕ) (t : Tier)
    → resolve_all (paths_of e keys) ≢ none
    → has job t.store_job_paths ≡ false
    → has job t.load_job_paths ≡ false
    → Inv t
    → Inv (admit_store e job keys t).0
unfolding admit_store
admit_store-Inv e job keys t good new_store new_load v =
    let (gate', pinned) = try_pin_store e.world e.world_later e.process job t.gate in
    let t' = record t { gate = gate' } in
    let jobs = pin_store_jobs e.world e.world_later e.process job in
    elim (Bool-cases pinned) [
      | inl ok ↦
          rw (ok, admit_store)
            (reserve_store-Inv e job keys t' good (record {
              reserved = v.reserved;
              reserved_dict = v.reserved_dict;
              stored = v.stored;
              gated = λ j. ground (arith, v.gated j, jobs j t.gate);
              leased = λ j. ground (arith, v.leased j);
              keyed = v.keyed;
              new_store = new_store;
              new_load = new_load;
            }))
      | inr refused ↦
          rw (refused, admit_store)
            (record {
              reserved = v.reserved;
              reserved_dict = v.reserved_dict;
              stored = v.stored;
              gated = λ j. ground (arith, v.gated j, jobs j t.gate);
              leased = v.leased;
              keyed = v.keyed;
            })
    ]

pub submit_store-Inv :
    (e : Env) (job : ℕ) (keys : List ℕ) (t : Tier)
    → resolve_all (paths_of e keys) ≢ none
    → has job t.store_job_paths ≡ false
    → has job t.load_job_paths ≡ false
    → Inv t
    → Inv (submit_store e job keys t).0
unfolding submit_store
submit_store-Inv e job keys t good new_store new_load v =
    let d = drain_evictions e t in
    let u = maybe_schedule_eviction e d in
    let same = Same-trans t d u (drain_evictions-Same e t) (maybe_schedule_eviction-Same e d) in
    let (_, _, stores, _, _, loads, _) = same in
    admit_store-Inv e job keys u good (rw stores new_store) (rw loads new_load)
      (Same-Inv t u same v)
