-- ===== src/FsTier/Eviction.antt =====
-- patches/tiering-fs-manager.disk-reserve.py: `_drain_evictions` and `_maybe_schedule_eviction`.
use deepseek_v4_flash_mi300x.Prelude.{
  ℕ, Bool, true, false, not, ◌&&◌, ◌||◌, Option, none, some, List, [], ◌∷◌, ltb, leb, ◌==◌,
  if◌then◌else◌,
}
use deepseek_v4_flash_mi300x.EvictionGate.{try_begin_eviction, try_fence_writes, finish_eviction}
use deepseek_v4_flash_mi300x.ShardLeases.Lru
use deepseek_v4_flash_mi300x.ShardLeases.Lru.{begin_oldest_eviction}
use deepseek_v4_flash_mi300x.FsTier.{Tier, Env, Worker, submit, get_finished}
use deepseek_v4_flash_mi300x.FsTier.Space.{get_available_bytes}

-- the loop of `_drain_evictions`
unfoldable pub collect : Env → List (ℕ × Bool) → Tier → Tier
collect e [] t = t
collect e ((path, success) ∷ done) t = collect e done (record t {
  leases = Lru.finish_eviction path success (e.stat path) t.leases;
  last_space_check = 0;
})

-- `_drain_evictions`
unfoldable pub drain_evictions : Env → Tier → Tier
drain_evictions e t = elim t.worker [
  | none ↦ t
  | some w ↦ let (w', done) = get_finished w in collect e done (record t { worker = some w' })
]

abbrev pub is_nil : List ℕ → Bool
is_nil [] = true
is_nil (x ∷ xs) = false

-- the part that makes this process the owner of eviction
unfoldable pub take_ownership : Env → ℕ → Tier → Tier
take_ownership e available t =
    let (gate', ok) = try_begin_eviction e.world e.process t.gate in
    let needs_owner = not (is_nil t.orphan_tombstones) || ltb available t.eviction_trigger_bytes in
    if not t.is_evicting && needs_owner then record t { gate = gate'; is_evicting = ok } else t

-- the tombstones from the first one that still exists
unfoldable pub skip_missing : (ℕ → Bool) → List ℕ → List ℕ
skip_missing exists [] = []
skip_missing exists (path ∷ paths) = if exists path then path ∷ paths else skip_missing exists paths

abbrev pub submit_to : ℕ → Option Worker → Option Worker
submit_to path none = none
submit_to path (some w) = some (submit path w)

abbrev pub submit_path : ℕ → Tier → Tier
submit_path path t = record t { worker = submit_to path t.worker }

-- the last part: a shard is chosen under the fence
unfoldable pub evict_oldest : Env → Tier → Tier
evict_oldest e t =
    let (gate', fenced) = try_fence_writes e.world e.process t.gate in
    let (leases', chosen) = begin_oldest_eviction e.siblings t.leases in
    if not fenced then record t { gate = gate' } else elim chosen [
      | none ↦ record t { gate = gate' }
      | some shard ↦ submit_path shard (record t { gate = gate'; leases = leases' })
    ]

unfoldable pub evict_next : Env → ℕ → List ℕ → Tier → Tier
evict_next e available (path ∷ paths) t =
    let (gate', fenced) = try_fence_writes e.world e.process t.gate in
    if fenced
    then submit_path path (record t { gate = gate'; orphan_tombstones = paths })
    else record t { gate = gate'; orphan_tombstones = path ∷ paths }
evict_next e available [] t =
    let t' = record t { orphan_tombstones = [] } in
    if leb t.eviction_target_bytes available
    then record t' { is_evicting = false; gate = finish_eviction t.gate }
    else evict_oldest e t'

-- is a deletion in flight?
abbrev pub is_busy : Worker → Tier → Bool
is_busy w t = not (w.outstanding == 0) || not (is_nil t.leases.evicting)

unfoldable pub schedule_next : Env → ℕ → Worker → Tier → Tier
schedule_next e available w t =
    if not t.is_evicting || is_busy w t
    then t
    else evict_next e available (skip_missing e.exists t.orphan_tombstones) t

-- `_maybe_schedule_eviction`
unfoldable pub maybe_schedule_eviction : Env → Tier → Tier
maybe_schedule_eviction e t = elim t.worker [
  | none ↦ t
  | some w ↦
      let (t', available) = get_available_bytes e false t in
      schedule_next e available w (take_ownership e available t')
]
