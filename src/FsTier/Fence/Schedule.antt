-- ===== src/FsTier/Fence/Schedule.antt =====
-- The worker's count of deletions, and the fence through `_maybe_schedule_eviction`
-- (patches/tiering-fs-manager.disk-reserve.py).
use deepseek_v4_flash_mi300x.Prelude.{
  ℕ, ◌≡◌, inl, inr, refl, sym, ap, ◌∙◌, Bool, true, false, not, ◌||◌, Option, none, some, List, [],
  ◌∷◌, length, length-append, leb, Bool-cases, Option-cases, List-cases, arith,
}
use deepseek_v4_flash_mi300x.EvictionGate.{
  Gate, World, try_begin_eviction, try_fence_writes, finish_eviction, unfence, disown,
}
use deepseek_v4_flash_mi300x.ShardLeases.Lru.{begin_oldest_eviction}
use deepseek_v4_flash_mi300x.FsTier.{Tier, Env, Worker, submit, run_one}
use deepseek_v4_flash_mi300x.FsTier.Space.{get_available_bytes}
use deepseek_v4_flash_mi300x.FsTier.Eviction.{
  is_nil, take_ownership, evict_oldest, evict_next, schedule_next, is_busy, skip_missing,
  maybe_schedule_eviction, submit_path, submit_to,
}
use deepseek_v4_flash_mi300x.FsTier.Fence.{is_at_rest, Counted, Inv, Same-Inv, available-Same}

pub run_one-Counted :
    (success : Bool) (w : Worker) → Counted (some w) → Counted (some (run_one success w))
unfolding run_one
run_one-Counted success w h = elim (List-cases w.pending) [
  | inl idle ↦ rw (idle, run_one) h
  | inr (p, rest, next) ↦
      rw (next, run_one)
        (omega (arith, h, ap length next, length-append w.finished ((p, success) ∷ [])))
]

submit-Counted : (p : ℕ) (w : Option Worker) → Counted w → Counted (submit_to p w)
unfolding submit
submit-Counted p none h = tt
submit-Counted p (some w) h = omega (arith, h, length-append w.pending (p ∷ []))

take_ownership_worker : (e : Env) (n : ℕ) (t : Tier) → (take_ownership e n t).worker ≡ t.worker
unfolding take_ownership
take_ownership_worker e n t = ground arith

take_ownership-Inv : (e : Env) (n : ℕ) (t : Tier) → Inv t → Inv (take_ownership e n t)
unfolding take_ownership try_begin_eviction
take_ownership-Inv e n t v = record {
  owner = ground (arith, v.owner);
  fence_owner = ground (arith, v.owner, v.fence_owner);
  deleting = ground (arith, v.deleting);
  marked = ground (arith, v.marked);
  counted = rw (take_ownership_worker e n t) v.counted;
}

-- a fence that is taken, and one that is refused
fence_taken :
    (w : World) (i : ℕ) (g : Gate)
    → (try_fence_writes w i g).1 ≡ true
    → ((try_fence_writes w i g).0.writes_fenced ≡ true)
      × ((try_fence_writes w i g).0.owns_eviction ≡ true)
unfolding try_fence_writes
fence_taken w i g h = ground arith

fence_refused :
    (w : World) (i : ℕ) (g : Gate)
    → (try_fence_writes w i g).1 ≡ false
    → (try_fence_writes w i g).0 ≡ g
unfolding try_fence_writes
fence_refused w i g h = ground arith

fenced-Inv :
    (t : Tier)
    → t.is_evicting ≡ true
    → (t.gate.writes_fenced ≡ true) × (t.gate.owns_eviction ≡ true)
    → Counted t.worker
    → Inv t
fenced-Inv t a (f, o) c = record {
  owner = a ∙ sym o;
  fence_owner = λ h. o;
  deleting = λ h. absurd (ground arith);
  marked = λ h. absurd (ground arith);
  counted = c;
}

evict_oldest-Inv : (e : Env) (t : Tier) → t.is_evicting ≡ true → Inv t → Inv (evict_oldest e t)
unfolding evict_oldest
evict_oldest-Inv e t a v =
    let (gate', fenced) = try_fence_writes e.world e.process t.gate in
    let (leases', chosen) = begin_oldest_eviction e.siblings t.leases in
    elim (Bool-cases fenced) [
      | inl ok ↦ elim (Option-cases chosen) [
        | inl idle ↦
            rw (ok, evict_oldest, idle)
              (fenced-Inv (record t { gate = gate' }) a (fence_taken e.world e.process t.gate ok)
                v.counted)
        | inr (s, found) ↦
            rw (ok, evict_oldest, found)
              (fenced-Inv (submit_path s (record t { gate = gate'; leases = leases' })) a
                (fence_taken e.world e.process t.gate ok) (submit-Counted s t.worker v.counted))
      ]
      | inr refused ↦
          rw (refused, evict_oldest)
            (Same-Inv t (record t { gate = gate' })
              (let same = fence_refused e.world e.process t.gate refused in
                (refl, ap (λ g. g.owns_eviction) same, ap (λ g. g.writes_fenced) same, refl, refl))
              v)
    ]

finish_gate :
    (g : Gate)
    → ((finish_eviction g).owns_eviction ≡ false) × ((finish_eviction g).writes_fenced ≡ false)
unfolding finish_eviction unfence disown
finish_gate g = ground arith

finished-Inv :
    (t : Tier)
    → is_at_rest t.worker ≡ true
    → is_nil t.leases.evicting ≡ true
    → Counted t.worker
    → Inv (record t { is_evicting = false; gate = finish_eviction t.gate; orphan_tombstones = [] })
finished-Inv t r m c =
    let (owns, fenced) = finish_gate t.gate in
    record {
      owner = sym owns;
      fence_owner = λ h. absurd (ground arith);
      deleting = λ h. r;
      marked = λ h. m;
      counted = c;
    }

evict_next-Inv :
    (e : Env) (n : ℕ) (paths : List ℕ) (t : Tier)
    → t.is_evicting ≡ true
    → is_at_rest t.worker ≡ true
    → is_nil t.leases.evicting ≡ true
    → Inv t
    → Inv (evict_next e n paths t)
unfolding evict_next
evict_next-Inv e n (p ∷ paths) t a r m v =
    let (gate', fenced) = try_fence_writes e.world e.process t.gate in
    elim (Bool-cases fenced) [
      | inl ok ↦
          rw (ok, evict_next)
            (fenced-Inv (submit_path p (record t { gate = gate'; orphan_tombstones = paths })) a
              (fence_taken e.world e.process t.gate ok) (submit-Counted p t.worker v.counted))
      | inr refused ↦
          rw (refused, evict_next)
            (Same-Inv t (record t { gate = gate'; orphan_tombstones = p ∷ paths })
              (let same = fence_refused e.world e.process t.gate refused in
                (refl, ap (λ g. g.owns_eviction) same, ap (λ g. g.writes_fenced) same, refl, refl))
              v)
    ]
evict_next-Inv e n [] t a r m v = elim (Bool-cases (leb t.eviction_target_bytes n)) [
  | inl enough ↦ rw (enough, evict_next) (finished-Inv t r m v.counted)
  | inr short ↦
      rw (short, evict_next)
        (evict_oldest-Inv e (record t { orphan_tombstones = [] }) a
          (Same-Inv t (record t { orphan_tombstones = [] }) (refl, refl, refl, refl, refl) v))
]

schedule_next-Inv :
    (e : Env) (n : ℕ) (w : Worker) (t : Tier)
    → t.worker ≡ some w
    → Inv t
    → Inv (schedule_next e n w t)
unfolding schedule_next
schedule_next-Inv e n w t on v = elim (Bool-cases (not t.is_evicting || is_busy w t)) [
  | inl stop ↦ rw (stop, schedule_next) v
  | inr go ↦
      rw (go, schedule_next)
        (evict_next-Inv e n (skip_missing e.exists t.orphan_tombstones) t (ground arith)
          (rw on (ground arith)) (ground arith) v)
]

pub maybe_schedule_eviction-Inv : (e : Env) (t : Tier) → Inv t → Inv (maybe_schedule_eviction e t)
unfolding maybe_schedule_eviction
maybe_schedule_eviction-Inv e t v = elim (Option-cases t.worker) [
  | inl off ↦ rw (off, maybe_schedule_eviction) v
  | inr (w, on) ↦
      let (t', n) = get_available_bytes e false t in
      let u = take_ownership e n t' in
      let same = available-Same e false t in
      let v' = take_ownership-Inv e n t' (Same-Inv t t' same v) in
      rw (on, maybe_schedule_eviction)
        (schedule_next-Inv e n w u (take_ownership_worker e n t' ∙ (same.3 ∙ on)) v')
]
