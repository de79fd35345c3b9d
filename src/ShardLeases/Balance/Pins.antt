-- ===== src/ShardLeases/Balance/Pins.antt =====
-- The pins that a lookup leaves keep the balance, where the shards are free to be leased.
use deepseek_v4_flash_mi300x.Prelude.{
  ℕ, ◌≡◌, Bool, true, false, not, ◌&&◌, ◌||◌, List, [], ◌∷◌, Bool-cases, inl, inr, mem, All, arith,
}
use deepseek_v4_flash_mi300x.Prelude.Map.{has, set_default}
use deepseek_v4_flash_mi300x.Prelude.Totals.{put-IsDict, total-put, occurrences}
use deepseek_v4_flash_mi300x.ShardLeases.{
  Siblings, Index, acquire_shared, is_fenced, pins_of, candidates_of, pin_hit, pin_hits, lookup_end,
  release_pending_shards,
}
use deepseek_v4_flash_mi300x.ShardLeases.Leases.{pin_cached, resolve_cached_lookup}
use deepseek_v4_flash_mi300x.ShardLeases.Balance.{Inv, release_pending_shards-Inv}
use deepseek_v4_flash_mi300x.ShardLeases.Balance.Lookups.{
  IsOpen, acquire_open, put_pin-Inv, used-Inv,
}

pub set_default-Inv :
    (req : ℕ) (ix : Index)
    → Inv ix
    → Inv (record ix { request_shards = set_default req [] ix.request_shards })
unfolding set_default occurrences
set_default-Inv req ix v = elim (Bool-cases (has req ix.request_shards)) [
  | inl old ↦ rw old v
  | inr new ↦ rw new (record {
    balanced =
        λ s. ground (arith, v.balanced s, total-put (occurrences s) req [] ix.request_shards);
    locks_ok = v.locks_ok;
    evicting_locked = v.evicting_locked;
    request_dict = put-IsDict req [] ix.request_shards v.request_dict;
    pending_dict = v.pending_dict;
    job_dict = v.job_dict;
    pending_dicts = v.pending_dicts;
  })
]

pin_hit-Inv :
    (e : Siblings) (req now shard : ℕ) (ix : Index)
    → Inv ix
    → IsOpen e ix shard
    → Inv (pin_hit e req now shard ix)
unfolding pin_hit
pin_hit-Inv e req now shard ix v o = elim (Bool-cases (mem shard (pins_of req ix))) [
  | inl old ↦ rw old (used-Inv _ _ ix v)
  | inr new ↦
      rw new (used-Inv _ _ _ (put_pin-Inv e req shard ix v (acquire_open e ix shard v o) new))
]

pin_hit-evicting :
    (e : Siblings) (req now shard : ℕ) (ix : Index)
    → (pin_hit e req now shard ix).evicting ≡ ix.evicting
unfolding pin_hit
pin_hit-evicting e req now shard ix = ground arith

IsOpen-All :
    (e : Siblings) (ix ix' : Index) (shards : List ℕ)
    → ix'.evicting ≡ ix.evicting
    → All (IsOpen e ix) shards
    → All (IsOpen e ix') shards
IsOpen-All e ix ix' [] same a = tt
IsOpen-All e ix ix' (s ∷ shards) same a =
    ((a.0.0, rw same a.0.1), IsOpen-All e ix ix' shards same a.1)

pin_hits-Inv :
    (e : Siblings) (req now : ℕ) (shards : List ℕ) (hits : List Bool) (ix : Index)
    → Inv ix
    → All (IsOpen e ix) shards
    → Inv (pin_hits e req now shards hits ix)
unfolding pin_hits
pin_hits-Inv e req now (s ∷ shards) (true ∷ hits) ix v o =
    let ix' = pin_hit e req now s ix in
    pin_hits-Inv e req now shards hits ix' (pin_hit-Inv e req now s ix v o.0)
      (IsOpen-All e ix ix' shards (pin_hit-evicting e req now s ix) o.1)
pin_hits-Inv e req now (s ∷ shards) (false ∷ hits) ix v o =
    pin_hits-Inv e req now shards hits ix v o.1
pin_hits-Inv e req now [] _ ix v o = v
pin_hits-Inv e req now (s ∷ shards) [] ix v o = v

release_pending_shards-evicting :
    (req : ℕ) (shards : List ℕ) (ix : Index)
    → (release_pending_shards req shards ix).evicting ≡ ix.evicting
unfolding release_pending_shards
release_pending_shards-evicting req shards ix = ground arith

-- The last block of a lookup keeps the balance where no other process holds one of the shards
-- exclusively and this one evicts none of them.
pub lookup_end-Inv :
    (e : Siblings) (req now : ℕ) (shards : List ℕ) (eligible hits : List Bool) (ix : Index)
    → Inv ix
    → All (IsOpen e ix) shards
    → Inv (lookup_end e req now shards eligible hits ix).0
unfolding lookup_end
lookup_end-Inv e req now shards eligible hits ix v o =
    let cands = candidates_of shards eligible in
    let dropped = release_pending_shards req cands ix in
    let opened = record dropped { request_shards = set_default req [] dropped.request_shards } in
    let v' = release_pending_shards-Inv req cands ix v in
    elim (Bool-cases (is_fenced req ix)) [
      | inl closed ↦ rw closed v'
      | inr live ↦ rw live (
          pin_hits-Inv e req now shards hits _ (set_default-Inv req dropped v')
            (IsOpen-All e ix opened shards (release_pending_shards-evicting req cands ix) o))
    ]

pin_cached-Inv :
    (e : Siblings) (req shard : ℕ) (hit : Bool) (ix : Index)
    → Inv ix
    → Inv (pin_cached e req shard hit ix).0
unfolding pin_cached
pin_cached-Inv e req shard hit ix v =
    let vo = set_default-Inv req ix v in
    let opened = record ix { request_shards = set_default req [] ix.request_shards } in
    elim (Bool-cases (hit && not (is_fenced req ix || mem shard ix.evicting))) [
      | inr bad ↦ rw bad vo
      | inl good ↦ rw good (elim (Bool-cases (mem shard (pins_of req opened))) [
        | inl old ↦ rw old vo
        | inr new ↦ rw new (elim (Bool-cases (acquire_shared e shard ix.locks).1) [
          | inl got ↦ rw got (put_pin-Inv e req shard opened vo got new)
          | inr missed ↦ rw missed vo
        ])
      ])
    ]

-- Resolving a cached result keeps the balance whatever other processes hold.
pub resolve_cached_lookup-Inv :
    (e : Siblings) (req now shard : ℕ) (hit : Bool) (ix : Index)
    → Inv ix
    → Inv (resolve_cached_lookup e req now shard hit ix).0
unfolding resolve_cached_lookup
resolve_cached_lookup-Inv e req now shard hit ix v =
    let (pinned, valid_hit) = pin_cached e req shard hit ix in
    let v' =
      release_pending_shards-Inv req (shard ∷ []) pinned (pin_cached-Inv e req shard hit ix v) in
    elim (Bool-cases valid_hit) [ inl good ↦ rw good (used-Inv _ _ _ v') | inr bad ↦ rw bad v' ]
