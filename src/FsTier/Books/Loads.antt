-- ===== src/FsTier/Books/Loads.antt =====
-- `submit_load`, `get_finished_jobs` and the calls of requests keep the books.
use deepseek_v4_flash_mi300x.Prelude.{
  ℕ, ◌≡◌, ◌≢◌, refl, ◌∙◌, Bool, true, false, Option, none, some, List, [], ◌∷◌, get_or, Bool-cases,
  Option-cases, inl, inr, arith,
}
use deepseek_v4_flash_mi300x.Prelude.Map.{lookup, has, lookup-put, lookup-del}
use deepseek_v4_flash_mi300x.Prelude.Totals.{del-IsDict, total-del}
use deepseek_v4_flash_mi300x.ShardLeases.{Index, release_request_pins}
use deepseek_v4_flash_mi300x.ShardLeases.Leases.{resolve_all, pin_job}
use deepseek_v4_flash_mi300x.ShardLeases.Lru.{
  use_shard, access_shard, for_paths, record_store, record_access,
}
use deepseek_v4_flash_mi300x.FsTier.{Tier, Env}
use deepseek_v4_flash_mi300x.FsTier.Eviction.{drain_evictions, maybe_schedule_eviction}
use deepseek_v4_flash_mi300x.FsTier.Jobs.{
  paths_of, refuse_load, accept_load, undo_load, submit_load, give_back, use_paths, announce, learn,
  settle, settle_all, get_finished_jobs,
}
use deepseek_v4_flash_mi300x.FsTier.Books.{
  id, Inv, Same, Same-Inv, Same-trans, drain_evictions-Same, maybe_schedule_eviction-Same,
}
use deepseek_v4_flash_mi300x.FsTier.Books.Pins.{
  release_store_jobs, pin_job_taken, pin_job_refused, pin_job_answers, release_job_shards,
}

give_back-Inv : (job : ℕ) (t : Tier) → Inv t → Inv (give_back job t)
unfolding give_back
give_back-Inv job t v = record {
  reserved =
      ground (arith, v.reserved, total-del id job t.store_job_reserved_bytes v.reserved_dict);
  reserved_dict = del-IsDict job t.store_job_reserved_bytes v.reserved_dict;
  stored = λ j. ground (
    arith,
    v.stored j,
    lookup-del job j t.store_job_reserved_bytes,
    lookup-del job j t.store_job_paths,
  );
  gated = λ j.
      ground
        (arith, v.gated j, release_store_jobs job j t.gate, lookup-del job j t.store_job_paths);
  leased = λ j. ground (
    arith,
    v.leased j,
    release_job_shards job j t.leases,
    lookup-del job j t.store_job_paths,
    lookup-del job j t.load_job_paths,
  );
  keyed = λ j.
      ground
        (arith, v.keyed j, lookup-del job j t.load_job_keys, lookup-del job j t.load_job_paths);
}

for_paths_jobs :
    (f : ℕ → Index → Index)
    → ((s : ℕ) (ix : Index) → (f s ix).job_shards ≡ ix.job_shards)
    → (paths : List (Option ℕ)) (ix : Index) → (for_paths f paths ix).0.job_shards ≡ ix.job_shards
for_paths_jobs f keep [] ix = refl
for_paths_jobs f keep (none ∷ paths) ix = refl
for_paths_jobs f keep (some s ∷ paths) ix = for_paths_jobs f keep paths (f s ix) ∙ keep s ix

use_paths_jobs :
    (e : Env) (stored loaded : List (Option ℕ)) (ix : Index)
    → (use_paths e stored loaded ix).job_shards ≡ ix.job_shards
unfolding use_paths record_store record_access
use_paths_jobs e stored loaded ix =
    for_paths_jobs (access_shard e.now) (λ s ix. ground arith) loaded
      (for_paths (use_shard e.now) stored ix).0
    ∙ for_paths_jobs (use_shard e.now) (λ s ix. refl) stored ix

announce-Same : (job : ℕ) (success : Bool) (t : Tier) → Same t (announce job success t)
unfolding announce
announce-Same job success t = ground arith

learn-Same :
    (e : Env) (success : Bool) (stored loaded : List (Option ℕ)) (keys : List ℕ) (t : Tier)
    → Same t (learn e success stored loaded keys t)
unfolding learn
learn-Same e success stored loaded keys t = ground (arith, use_paths_jobs e stored loaded t.leases)

settle-Inv : (e : Env) (job : ℕ) (success : Bool) (t : Tier) → Inv t → Inv (settle e job success t)
unfolding settle
settle-Inv e job success t v =
    let back = give_back job t in
    let stored = get_or (lookup job t.store_job_paths) [] in
    let loaded = get_or (lookup job t.load_job_paths) [] in
    let keys = get_or (lookup job t.load_job_keys) [] in
    let learned = learn e success stored loaded keys back in
    Same-Inv back (announce job success learned)
      (Same-trans back learned (announce job success learned)
        (learn-Same e success stored loaded keys back) (announce-Same job success learned))
      (give_back-Inv job t v)

settle_all-Inv : (e : Env) (done : List (ℕ × Bool)) (t : Tier) → Inv t → Inv (settle_all e done t)
unfolding settle_all
settle_all-Inv e [] t v = v
settle_all-Inv e ((job, success) ∷ done) t v =
    settle_all-Inv e done (settle e job success t) (settle-Inv e job success t v)

pub get_finished_jobs-Inv :
    (e : Env) (done : List (ℕ × Bool)) (t : Tier) → Inv t → Inv (get_finished_jobs e done t).0
unfolding get_finished_jobs
get_finished_jobs-Inv e done t v =
    let d = drain_evictions e t in
    let u = maybe_schedule_eviction e d in
    let same = Same-trans t d u (drain_evictions-Same e t) (maybe_schedule_eviction-Same e d) in
    settle_all-Inv e done (record u { failed_jobs = [] })
      (Same-Inv u (record u { failed_jobs = [] }) (refl, refl, refl, refl, refl, refl, refl)
        (Same-Inv t u same v))

accept_load-Inv :
    (e : Env) (job req : ℕ) (keys : List ℕ) (t : Tier)
    → Inv t
    → (pin_job e.siblings job (paths_of e keys) t.leases).1 ≡ some true
    → let t' = record t { leases = (pin_job e.siblings job (paths_of e keys) t.leases).0 } in
      Inv (accept_load job req keys (paths_of e keys) t')
unfolding accept_load release_request_pins
accept_load-Inv e job req keys t v given = record {
  reserved = v.reserved;
  reserved_dict = v.reserved_dict;
  stored = v.stored;
  gated = v.gated;
  leased = λ j. ground (
    arith,
    v.leased j,
    pin_job_taken e.siblings job j (paths_of e keys) t.leases given,
    lookup-put job j (paths_of e keys) t.load_job_paths,
  );
  keyed = λ j. ground (
    arith,
    v.keyed j,
    lookup-put job j keys t.load_job_keys,
    lookup-put job j (paths_of e keys) t.load_job_paths,
  );
}

undo_load-Inv :
    (job : ℕ) (t : Tier) → has job t.store_job_paths ≡ false → Inv t → Inv (undo_load job t)
unfolding undo_load
undo_load-Inv job t new_store v = record {
  reserved = v.reserved;
  reserved_dict = v.reserved_dict;
  stored = v.stored;
  gated = v.gated;
  leased = λ j. ground (
    arith,
    v.leased j,
    new_store,
    release_job_shards job j t.leases,
    lookup-del job j t.load_job_paths,
  );
  keyed = λ j.
      ground
        (arith, v.keyed j, lookup-del job j t.load_job_keys, lookup-del job j t.load_job_paths);
}

new_store_kept :
    (job req : ℕ) (keys : List ℕ) (paths : List (Option ℕ)) (t : Tier)
    → has job t.store_job_paths ≡ false
    → has job (accept_load job req keys paths t).store_job_paths ≡ false
unfolding accept_load
new_store_kept job req keys paths t h = h

refuse_load-Same : (job req : ℕ) (keys : List ℕ) (t : Tier) → Same t (refuse_load job req keys t)
unfolding refuse_load release_request_pins
refuse_load-Same job req keys t = (refl, refl, refl, refl, refl, refl, refl)

pub submit_load-Inv :
    (e : Env) (job req : ℕ) (keys : List ℕ) (t : Tier)
    → resolve_all (paths_of e keys) ≢ none
    → has job t.store_job_paths ≡ false
    → has job t.load_job_paths ≡ false
    → Inv t
    → Inv (submit_load e job req keys t).0
unfolding submit_load
submit_load-Inv e job req keys t good new_store new_load v =
    let paths = paths_of e keys in
    elim (Option-cases (pin_job e.siblings job paths t.leases).1) [
      | inl none_given ↦ absurd (pin_job_answers e.siblings job paths t.leases good none_given)
      | inr (true, given) ↦
          let taken = record t { leases = (pin_job e.siblings job paths t.leases).0 } in
          let accepted = accept_load-Inv e job req keys t v given in
          elim (Bool-cases e.enqueues) [
            | inl ok ↦ rw (given, submit_load, ok) accepted
            | inr raised ↦
                rw (given, submit_load, raised)
                  (undo_load-Inv job (accept_load job req keys paths taken)
                    (new_store_kept job req keys paths taken new_store) accepted)
          ]
      | inr (false, given) ↦
          let refused = record t { leases = (pin_job e.siblings job paths t.leases).0 } in
          let same = pin_job_refused e.siblings job paths t.leases (λ q. ground arith) in
          rw (given, submit_load)
            (Same-Inv t (refuse_load job req keys refused)
              (Same-trans t refused (refuse_load job req keys refused)
                (refl, refl, refl, refl, same, refl, refl) (refuse_load-Same job req keys refused))
              v)
    ]
