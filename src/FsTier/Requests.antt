-- ===== src/FsTier/Requests.antt =====
-- patches/tiering-fs-manager.disk-reserve.py: the life of a request, the step's end, and statistics.
use deepseek_v4_flash_mi300x.Prelude.{
  ℕ, Bool, false, not, ◌==◌, Option, none, some, List, [], length, if◌then◌else◌,
}
use deepseek_v4_flash_mi300x.EvictionGate.{eviction_active, close}
use deepseek_v4_flash_mi300x.ShardLeases.Leases
use deepseek_v4_flash_mi300x.ShardLeases.Leases.{
  resolve_cached_lookup, open_request, release_request,
}
use deepseek_v4_flash_mi300x.ShardLeases.Lru.{flush_touches}
use deepseek_v4_flash_mi300x.AsyncLookup.{
  lookup_key, cleanup, take_dropped_keys, take_cancelled_keys, pending_batches, pending_keys,
}
use deepseek_v4_flash_mi300x.AsyncLookup.Flush.{flush}
use deepseek_v4_flash_mi300x.FsTier.{Tier, Env}
use deepseek_v4_flash_mi300x.FsTier.Space.{get_available_bytes}
use deepseek_v4_flash_mi300x.FsTier.Eviction.{drain_evictions, maybe_schedule_eviction}

pub data LookupResult : Type 0 where
  retry hit miss : LookupResult

-- `on_new_request`
unfoldable pub on_new_request : ℕ → Tier → Tier
on_new_request req t = record t { leases = open_request req t.leases }

-- `lookup`; `none` if the key's path raises
unfoldable pub lookup : Env → ℕ → ℕ → Tier → Tier × Option LookupResult
lookup e key req t =
    let (lookups', result) = lookup_key key req t.lookups in
    let t' = record t { lookups = lookups' } in
    elim result [
      | none ↦ (t', some retry)
      | some found ↦ elim (e.path_of key) [
        | none ↦ (t', none)
        | some shard ↦
            let (leases', valid) =
              resolve_cached_lookup e.siblings req e.now shard found t.leases in
            (record t' { leases = leases' }, some (if valid then hit else miss))
      ]
    ]

-- `cancel_lookup`
unfoldable pub cancel_lookup : ℕ → Bool → Tier → Tier
cancel_lookup req release_pins t = record t {
  lookups = cleanup req t.lookups;
  leases = Leases.cancel_lookup req release_pins t.leases;
}

-- `on_request_finished`
unfoldable pub on_request_finished : ℕ → Tier → Tier
on_request_finished req t = record t {
  lookups = cleanup req t.lookups;
  leases = release_request req t.leases;
}

-- `on_schedule_end`; the schedule says what the lookup workers take between the puts
unfoldable pub on_schedule_end : Env → List ℕ → Tier → Tier
on_schedule_end e schedule t =
    let flushed = record t {
      lookups = flush schedule t.lookups;
      leases = (flush_touches e.now t.shard_touch_interval 64 t.leases).0;
    } in
    maybe_schedule_eviction e (drain_evictions e flushed)

pub record Stats : Type 0 where
  pub queue_dropped_keys : ℕ
  pub cancelled_keys : ℕ
  pub load_failures : ℕ
  pub store_eviction_bypasses : ℕ
  pub batches : ℕ
  pub keys : ℕ
  pub is_active : Bool
  pub evictions_in_flight : ℕ
  pub free_bytes : ℕ

-- `get_stats`
unfoldable pub get_stats : Env → Tier → Tier × Stats
get_stats e t =
    let (m, dropped) = take_dropped_keys t.lookups in
    let (m', cancelled) = take_cancelled_keys m in
    let taken = record t {
      lookups = m';
      load_failure_delta = 0;
      store_eviction_bypass_delta = 0;
    } in
    let (t', available) = get_available_bytes e false taken in
    (
      t',
      record {
        queue_dropped_keys = dropped;
        cancelled_keys = cancelled;
        load_failures = t.load_failure_delta;
        store_eviction_bypasses = t.store_eviction_bypass_delta;
        batches = pending_batches m';
        keys = pending_keys m';
        is_active = eviction_active e.world e.process t.gate;
        evictions_in_flight = length t.leases.evicting;
        free_bytes = available;
      },
    )

-- `take_events`, consumed to its end
unfoldable pub take_events : Tier → Tier × List (List ℕ)
take_events t = elim t.events [
  | none ↦ (t, [])
  | some events ↦ (record t { events = some [] }, events)
]

-- `has_pending_work`
unfoldable pub has_pending_work : Tier → Bool
has_pending_work t = elim t.worker [ none ↦ false | some w ↦ not (w.outstanding == 0) ]

-- `shutdown`, as far as the tier's own state goes
unfoldable pub shutdown : Tier → Tier
shutdown t = record t { gate = close t.gate }
