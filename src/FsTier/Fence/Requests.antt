-- ===== src/FsTier/Fence/Requests.antt =====
-- The calls of requests and of the lookup threads leave the fence alone.
use deepseek_v4_flash_mi300x.Prelude.{
  ℕ, ◌≡◌, refl, Bool, true, false, List, [], ◌∷◌, Option-cases, inl, inr, arith,
}
use deepseek_v4_flash_mi300x.Prelude.Map.{set_default}
use deepseek_v4_flash_mi300x.ShardLeases.{
  Siblings, Index, lookup_begin, lookup_end, pin_hit, pin_hits, release_pending_shards,
  lease_candidate, lease_candidates, candidates_of, drop_request_pending, release_request_pins,
}
use deepseek_v4_flash_mi300x.ShardLeases.Leases
use deepseek_v4_flash_mi300x.ShardLeases.Leases.{
  pin_cached, resolve_cached_lookup, open_request, release_request,
}
use deepseek_v4_flash_mi300x.AsyncLookup.{lookup_key}
use deepseek_v4_flash_mi300x.FsTier.{Tier, Env}
use deepseek_v4_flash_mi300x.FsTier.Space.{get_available_bytes}
use deepseek_v4_flash_mi300x.FsTier.Requests.{
  on_new_request, lookup, cancel_lookup, on_request_finished, get_stats, take_events,
}
use deepseek_v4_flash_mi300x.FsTier.Fence.{Same}

pub pending_evicting :
    (req : ℕ) (shards : List ℕ) (ix : Index)
    → (release_pending_shards req shards ix).evicting ≡ ix.evicting
unfolding release_pending_shards
pending_evicting req shards ix = ground arith

candidates_evicting :
    (e : Siblings) (shards : List ℕ) (ix : Index)
    → (lease_candidates e shards ix).0.evicting ≡ ix.evicting
unfolding lease_candidates lease_candidate
candidates_evicting e [] ix = refl
candidates_evicting e (s ∷ shards) ix =
    ground (arith, candidates_evicting e shards (lease_candidate e s ix).0)

pub begin_evicting :
    (e : Siblings) (req : ℕ) (shards : List ℕ) (ix : Index)
    → (lookup_begin e req shards ix).0.evicting ≡ ix.evicting
unfolding lookup_begin
begin_evicting e req shards ix = ground (arith, candidates_evicting e shards ix)

hits_evicting :
    (e : Siblings) (req now : ℕ) (shards : List ℕ) (hits : List Bool) (ix : Index)
    → (pin_hits e req now shards hits ix).evicting ≡ ix.evicting
unfolding pin_hits pin_hit
hits_evicting e req now [] hits ix = refl
hits_evicting e req now (s ∷ shards) [] ix = refl
hits_evicting e req now (s ∷ shards) (true ∷ hits) ix =
    ground (arith, hits_evicting e req now shards hits (pin_hit e req now s ix))
hits_evicting e req now (s ∷ shards) (false ∷ hits) ix = hits_evicting e req now shards hits ix

pub end_evicting :
    (e : Siblings) (req now : ℕ) (shards : List ℕ) (eligible hits : List Bool) (ix : Index)
    → (lookup_end e req now shards eligible hits ix).0.evicting ≡ ix.evicting
unfolding lookup_end
end_evicting e req now shards eligible hits ix =
    let dropped = release_pending_shards req (candidates_of shards eligible) ix in
    ground (
      arith,
      pending_evicting req (candidates_of shards eligible) ix,
      hits_evicting e req now shards hits
          (record dropped { request_shards = set_default req [] dropped.request_shards }),
    )

resolve_evicting :
    (e : Siblings) (req now s : ℕ) (hit : Bool) (ix : Index)
    → (resolve_cached_lookup e req now s hit ix).0.evicting ≡ ix.evicting
unfolding resolve_cached_lookup pin_cached
resolve_evicting e req now s hit ix =
    ground (arith, pending_evicting req (s ∷ []) (pin_cached e req s hit ix).0)

pub lookup-Same : (e : Env) (key req : ℕ) (t : Tier) → Same t (lookup e key req t).0
unfolding lookup
lookup-Same e key req t = elim (Option-cases (lookup_key key req t.lookups).1) [
  | inl unknown ↦ rw (unknown, lookup) (refl, refl, refl, refl, refl)
  | inr (found, known) ↦ elim (Option-cases (e.path_of key)) [
    | inl bad ↦ rw (known, lookup, bad) (refl, refl, refl, refl, refl)
    | inr (s, good) ↦
        rw (known, lookup, good)
          (refl, refl, refl, refl, resolve_evicting e.siblings req e.now s found t.leases)
  ]
]

pub reports-Same : (e : Env) (t : Tier) → Same t (get_stats e t).0
unfolding get_stats get_available_bytes
reports-Same e t = ground arith

pub opens-Same : (req : ℕ) (t : Tier) → Same t (on_new_request req t)
unfolding on_new_request open_request drop_request_pending
opens-Same req t = ground arith

pub closes-Same : (req : ℕ) (t : Tier) → Same t (on_request_finished req t)
unfolding on_request_finished release_request release_request_pins drop_request_pending
closes-Same req t = ground arith

pub cancels-Same :
    (req : ℕ) (release_pins : Bool) (t : Tier) → Same t (cancel_lookup req release_pins t)
unfolding cancel_lookup Leases.cancel_lookup release_request_pins drop_request_pending
cancels-Same req release_pins t = ground arith

pub events-Same : (t : Tier) → Same t (take_events t).0
unfolding take_events
events-Same t = ground arith
