-- ===== src/FsTier/Fence.antt =====
-- Deletions run under the fence: the tier's part in the exclusion of stores and deletions.
use deepseek_v4_flash_mi300x.Prelude.{
  ℕ, ◌+◌, ◌-◌, ◌≡◌, ◌≢◌, ◌⊎◌, inl, inr, refl, sym, ap, ◌∙◌, Bool, true, false, not, ◌&&◌, ◌||◌,
  Option, none, some, List, [], ◌∷◌, ◌++◌, length, length-append, ltb, leb, ◌==◌, if◌then◌else◌,
  mem, add, discard, Bool-cases, Option-cases, List-cases, arith,
}
use deepseek_v4_flash_mi300x.EvictionGate.{
  Gate, World, try_begin_eviction, try_fence_writes, finish_eviction, unfence, disown,
}
use deepseek_v4_flash_mi300x.ShardLeases.{Siblings, Index}
use deepseek_v4_flash_mi300x.ShardLeases.Lru
use deepseek_v4_flash_mi300x.ShardLeases.Lru.{Stat, begin_oldest_eviction}
use deepseek_v4_flash_mi300x.FsTier.{Tier, Env, Worker, submit, run_one, get_finished}
use deepseek_v4_flash_mi300x.FsTier.Space.{get_available_bytes}
use deepseek_v4_flash_mi300x.FsTier.Eviction.{
  is_nil, collect, drain_evictions, take_ownership, evict_oldest, evict_next, schedule_next,
  is_busy, skip_missing, maybe_schedule_eviction, submit_path, submit_to,
}
pub mod Schedule
pub mod Frames
pub mod Requests
pub mod Exclusion

abbrev pub is_at_rest : Option Worker → Bool
is_at_rest none = true
is_at_rest (some w) = w.outstanding == 0

abbrev pub Counted : Option Worker → Type 0
Counted none = Unit {0}
Counted (some w) = w.outstanding ≡ length w.pending + length w.finished

-- The tier knows whether it owns eviction, a fence has an owner, and while a deletion is submitted
-- and not collected, or a shard is marked as being evicted, the writes are fenced.
pub record Inv (t : Tier) : Type 0 where
  pub owner : t.is_evicting ≡ t.gate.owns_eviction
  pub fence_owner : t.gate.writes_fenced ≡ true → t.gate.owns_eviction ≡ true
  pub deleting : t.gate.writes_fenced ≡ false → is_at_rest t.worker ≡ true
  pub marked : t.gate.writes_fenced ≡ false → is_nil t.leases.evicting ≡ true
  pub counted : Counted t.worker

-- Two tiers that differ in nothing of that.
abbrev pub Same : Tier → Tier → Type 0
Same t t' =
    (t'.is_evicting ≡ t.is_evicting)
    × (t'.gate.owns_eviction ≡ t.gate.owns_eviction)
    × (t'.gate.writes_fenced ≡ t.gate.writes_fenced)
    × (t'.worker ≡ t.worker)
    × (t'.leases.evicting ≡ t.leases.evicting)

pub Same-Inv : (t t' : Tier) → Same t t' → Inv t → Inv t'
Same-Inv t t' (a, b, c, d, e) v = record {
  owner = rw (a, b) v.owner;
  fence_owner = rw (b, c) v.fence_owner;
  deleting = rw (c, d) v.deleting;
  marked = rw (c, e) v.marked;
  counted = rw d v.counted;
}

pub Same-trans : (t u v : Tier) → Same t u → Same u v → Same t v
Same-trans t u v (a, b, c, d, e) (a', b', c', d', e') = (a' ∙ a, b' ∙ b, c' ∙ c, d' ∙ d, e' ∙ e)

pub available-Same : (e : Env) (force : Bool) (t : Tier) → Same t (get_available_bytes e force t).0
unfolding get_available_bytes
available-Same e force t = ground arith

discard_nil : (s : ℕ) (ev : List ℕ) → is_nil ev ≡ true → is_nil (discard s ev) ≡ true
unfolding discard
discard_nil s [] h = refl
discard_nil s (x ∷ ev) h = absurd (ground arith)

finish_evicting :
    (s : ℕ) (success : Bool) (stat : Stat) (ix : Index)
    → (Lru.finish_eviction s success stat ix).evicting ≡ discard s ix.evicting
unfolding Lru.finish_eviction
finish_evicting s success stat ix = ground arith

collect-Inv : (e : Env) (done : List (ℕ × Bool)) (t : Tier) → Inv t → Inv (collect e done t)
unfolding collect
collect-Inv e [] t v = v
collect-Inv e ((path, success) ∷ done) t v =
    collect-Inv e done
      (record t {
        leases = Lru.finish_eviction path success (e.stat path) t.leases;
        last_space_check = 0;
      })
      (record {
        owner = v.owner;
        fence_owner = v.fence_owner;
        deleting = v.deleting;
        marked = λ h.
            rw (finish_evicting path success (e.stat path) t.leases)
              (discard_nil path t.leases.evicting (v.marked h));
        counted = v.counted;
      })

pub drain_evictions-Inv : (e : Env) (t : Tier) → Inv t → Inv (drain_evictions e t)
unfolding drain_evictions get_finished
drain_evictions-Inv e t v = elim (Option-cases t.worker) [
  | inl off ↦ rw (off, drain_evictions) v
  | inr (w, on) ↦
      let counted = (rw on at v.counted) in
      rw (on, drain_evictions)
        (collect-Inv e w.finished (record t { worker = some (get_finished w).0 })
          (record {
            owner = v.owner;
            fence_owner = v.fence_owner;
            deleting = λ h. ground (arith, v.deleting h);
            marked = v.marked;
            counted = omega (arith, counted);
          }))
]
