-- ===== src/ShardLeases/Balance/Requests.antt =====
-- The life of requests, jobs and evictions keeps the balance of leases and locks.
use deepseek_v4_flash_mi300x.Prelude.{
  ℕ, ◌≡◌, Bool, none, List, [], Bool-cases, inl, inr, add, discard, arith,
}
use deepseek_v4_flash_mi300x.Prelude.Map.{lookup, put, del, lookup-put, lookup-del}
use deepseek_v4_flash_mi300x.Prelude.Totals.{
  put-IsDict, del-IsDict, total-put, total-del, occurrences,
}
use deepseek_v4_flash_mi300x.ShardLeases.{
  Index, release_all, pins_of, drop_request_pending, release_request_pins,
}
use deepseek_v4_flash_mi300x.ShardLeases.Leases.{open_request, cancel_lookup, release_request}
use deepseek_v4_flash_mi300x.ShardLeases.Counts.{
  count-release_all, release_all-LocksOk, release_all-eviction_fds,
}
use deepseek_v4_flash_mi300x.ShardLeases.Balance.{
  Inv, release_request_pins-Inv, drop_request_pending-Inv,
}

-- the closed and cancelled requests are no part of the balance
pub fences-Inv :
    (closed cancelled : List ℕ) (ix : Index)
    → Inv ix
    → Inv (record ix { closed_requests = closed; lookup_cancelled_requests = cancelled })
fences-Inv closed cancelled ix v = record {
  balanced = v.balanced;
  locks_ok = v.locks_ok;
  evicting_locked = v.evicting_locked;
  request_dict = v.request_dict;
  pending_dict = v.pending_dict;
  job_dict = v.job_dict;
  pending_dicts = v.pending_dicts;
}

-- a request that goes, with its pins
drop_pins-Inv :
    (req : ℕ) (ix : Index)
    → Inv ix
    → Inv (record ix {
      locks = release_all (pins_of req ix) ix.locks;
      request_shards = del req ix.request_shards;
    })
unfolding occurrences
drop_pins-Inv req ix v = record {
  balanced = λ s. ground (
    arith,
    v.balanced s,
    count-release_all (pins_of req ix) s ix.locks,
    total-del (occurrences s) req ix.request_shards v.request_dict,
  );
  locks_ok = release_all-LocksOk (pins_of req ix) ix.locks v.locks_ok;
  evicting_locked =
      λ s. rw (release_all-eviction_fds (pins_of req ix) ix.locks) (v.evicting_locked s);
  request_dict = del-IsDict req ix.request_shards v.request_dict;
  pending_dict = v.pending_dict;
  job_dict = v.job_dict;
  pending_dicts = v.pending_dicts;
}

-- an empty set of pins for a request that has none
fresh_pins-Inv :
    (req : ℕ) (ix : Index)
    → Inv ix
    → lookup req ix.request_shards ≡ none
    → Inv (record ix { request_shards = put req [] ix.request_shards })
unfolding occurrences
fresh_pins-Inv req ix v new = record {
  balanced = λ s. ground (arith, v.balanced s, total-put (occurrences s) req [] ix.request_shards);
  locks_ok = v.locks_ok;
  evicting_locked = v.evicting_locked;
  request_dict = put-IsDict req [] ix.request_shards v.request_dict;
  pending_dict = v.pending_dict;
  job_dict = v.job_dict;
  pending_dicts = v.pending_dicts;
}

pub open_request-Inv : (req : ℕ) (ix : Index) → Inv ix → Inv (open_request req ix)
unfolding open_request drop_request_pending
open_request-Inv req ix v =
    let fenced =
      fences-Inv (discard req ix.closed_requests) (discard req ix.lookup_cancelled_requests) ix v in
    let dropped = drop_request_pending-Inv req _ (drop_pins-Inv req _ fenced) in
    fresh_pins-Inv req _ dropped (ground (arith, lookup-del req req ix.request_shards))

pub cancel_lookup-Inv :
    (req : ℕ) (release_pins : Bool) (ix : Index) → Inv ix → Inv (cancel_lookup req release_pins ix)
unfolding cancel_lookup
cancel_lookup-Inv req release_pins ix v =
    let dropped =
      drop_request_pending-Inv req _
        (fences-Inv ix.closed_requests (add req ix.lookup_cancelled_requests) ix v) in
    elim (Bool-cases release_pins) [
      | inl drop ↦ rw drop (release_request_pins-Inv req _ dropped)
      | inr keep ↦ rw keep dropped
    ]

drop_empty-Inv :
    (req : ℕ) (ix : Index)
    → Inv ix
    → pins_of req ix ≡ []
    → Inv (record ix { request_shards = del req ix.request_shards })
unfolding occurrences
drop_empty-Inv req ix v e = record {
  balanced = λ s.
      ground (arith, v.balanced s, total-del (occurrences s) req ix.request_shards v.request_dict);
  locks_ok = v.locks_ok;
  evicting_locked = v.evicting_locked;
  request_dict = del-IsDict req ix.request_shards v.request_dict;
  pending_dict = v.pending_dict;
  job_dict = v.job_dict;
  pending_dicts = v.pending_dicts;
}

pins_of-release_request_pins :
    (req : ℕ) (ix : Index) → pins_of req (release_request_pins req ix) ≡ []
unfolding release_request_pins
pins_of-release_request_pins req ix = ground (arith, lookup-put req req [] ix.request_shards)

pub release_request-Inv : (req : ℕ) (ix : Index) → Inv ix → Inv (release_request req ix)
unfolding release_request
release_request-Inv req ix v =
    let unpinned = release_request_pins req ix in
    let gone =
      drop_empty-Inv req unpinned (release_request_pins-Inv req ix v)
        (pins_of-release_request_pins req ix) in
    fences-Inv _ _ _ (drop_request_pending-Inv req _ gone)
