-- ===== src/EvictionGate/Invariant.antt =====
-- What holds of every process, and of every two, between any two system calls.
use deepseek_v4_flash_mi300x.Prelude.{
  ℕ, ◌≡◌, ◌≢◌, refl, sym, true, false, not, inl, inr, some, List, [], ◌∷◌, arith, ◌==◌,
  if◌then◌else◌, Bool-cases, Option-cases, add, discard,
}
use deepseek_v4_flash_mi300x.Prelude.Map.{lookup, has, put, lookup-put, lookup-del}
use deepseek_v4_flash_mi300x.EvictionGate.{
  unlocked, shared, exclusive, Gate, World, locks_intent, excludes_intent, locks_writes,
  excludes_writes, init, try_begin_eviction, try_fence_writes, pin_probe, pin_write, pin_done,
  is_nil, release_store, unfence, disown, close_files, Action, begins, fences, probes, probed,
  unfences, disowns, closes, starts, crashes, writes, releases, update, step, run,
}
use deepseek_v4_flash_mi300x.EvictionGate.Flock.{any_other-none}

-- The locks of one process are what its fields say.
pub record GateOk (g : Gate) : Type 0 where
  pub intent_is : g.intent ≡ (if g.owns_eviction then exclusive else unlocked)
  pub eviction_write_is : g.eviction_write ≡ (if g.writes_fenced then exclusive else unlocked)
  pub write_is : g.write ≡ (if g.store_lease_held then shared else unlocked)
  pub lease_is : g.store_lease_held ≡ not (is_nil g.store_jobs)
  pub probe_shares : g.intent_probe ≢ exclusive
  pub owner_probes_not : g.owns_eviction ≡ true → g.intent_probe ≡ unlocked
  pub fence_owns : g.writes_fenced ≡ true → g.owns_eviction ≡ true
  pub fence_excludes : g.writes_fenced ≡ true → g.store_lease_held ≡ false

-- What one process leaves to another.
pub record Compat (g h : Gate) : Type 0 where
  pub sole_owner : g.owns_eviction ≡ true → h.owns_eviction ≡ false
  pub no_probe : g.owns_eviction ≡ true → h.intent_probe ≡ unlocked
  pub no_store : g.writes_fenced ≡ true → h.store_lease_held ≡ false

pub record Inv (w : World) : Type 0 where
  pub each : (i : ℕ) (g : Gate) → lookup i w ≡ some g → GateOk g
  pub pairs :
      (i j : ℕ) (g h : Gate) → i ≢ j → lookup i w ≡ some g → lookup j w ≡ some h → Compat g h

init-GateOk : GateOk init
unfolding init
init-GateOk = ground arith

-- What a call of process `i` has to keep.
abbrev Keeps : World → ℕ → Gate → Gate → Type 0
Keeps w i g g' =
    GateOk g' × ((j : ℕ) (h : Gate) → j ≢ i → lookup j w ≡ some h → Compat g' h × Compat h g')

put-Inv : (w : World) (i : ℕ) (g g' : Gate) → Inv w → Keeps w i g g' → Inv (put i g' w)
put-Inv w i g g' v k = record {
  each = λ j h l. elim (Bool-cases (i == j)) [
    | inl same ↦ ground (arith, lookup-put i j g' w, k.0)
    | inr other ↦ v.each j h (ground (arith, lookup-put i j g' w))
  ];
  pairs = λ a b x y d la lb. elim (Bool-cases (i == a)) [
    | inl same ↦
        let there : lookup b w ≡ some y = ground (arith, lookup-put i b g' w) in
        let c = k.1 b y (λ e. d (ground arith)) there in ground (arith, lookup-put i a g' w, c)
    | inr other ↦ elim (Bool-cases (i == b)) [
      | inl same ↦
          let there : lookup a w ≡ some x = ground (arith, lookup-put i a g' w) in
          let c = k.1 a x (λ e. d (ground arith)) there in ground (arith, lookup-put i b g' w, c)
      | inr apart ↦
          v.pairs a b x y d (ground (arith, lookup-put i a g' w))
            (ground (arith, lookup-put i b g' w))
    ]
  ];
}

update-Inv :
    (w : World) (i : ℕ) (f : Gate → Gate)
    → Inv w
    → ((g : Gate)
        → lookup i w ≡ some g
        → GateOk g
        → ((j : ℕ) (h : Gate) → j ≢ i → lookup j w ≡ some h → GateOk h × Compat g h × Compat h g)
        → Keeps w i g (f g))
    → Inv (update i f w)
update-Inv w i f v keep = elim (Option-cases (lookup i w)) [
  | inl gone ↦ rw (gone, update) v
  | inr (g, here) ↦
      rw (here, update)
        (put-Inv w i g (f g) v (
          keep g here (v.each i g here) (λ j h d l.
            (v.each j h l, v.pairs i j g h (λ e. d (sym e)) here l, v.pairs j i h g d l here))))
]

begins-Inv : (w : World) (i : ℕ) → Inv w → Inv (step w (begins i))
unfolding step try_begin_eviction
begins-Inv w i v = update-Inv w i _ v λ g here ok others.
    (ground arith, λ j h d l. ground (arith, others j h d l, any_other-none i j locks_intent w h))

fences-Inv : (w : World) (i : ℕ) → Inv w → Inv (step w (fences i))
unfolding step try_fence_writes
fences-Inv w i v = update-Inv w i _ v λ g here ok others.
    (ground arith, λ j h d l. ground (arith, others j h d l, any_other-none i j locks_writes w h))

probes-Inv : (w : World) (i : ℕ) → Inv w → Inv (step w (probes i))
unfolding step pin_probe
probes-Inv w i v = update-Inv w i _ v λ g here ok others. (
  ground arith,
  λ j h d l. ground (arith, others j h d l, any_other-none i j excludes_intent w h),
)

is_nil-add : (a : ℕ) (xs : List ℕ) → is_nil (add a xs) ≡ false
unfolding add
is_nil-add a [] = refl
is_nil-add a (x ∷ xs) = ground arith

writes-Inv : (w : World) (i job : ℕ) → Inv w → Inv (step w (writes i job))
unfolding step pin_write
writes-Inv w i job v = update-Inv w i _ v λ g here ok others. (
  ground (arith, is_nil-add job g.store_jobs),
  λ j h d l. ground (arith, others j h d l, any_other-none i j excludes_writes w h),
)

probed-Inv : (w : World) (i : ℕ) → Inv w → Inv (step w (probed i))
unfolding step pin_done
probed-Inv w i v =
    update-Inv w i _ v λ g here ok others. (ground arith, λ j h d l. ground (arith, others j h d l))

is_nil-discard : (a : ℕ) (xs : List ℕ) → is_nil xs ≡ true → is_nil (discard a xs) ≡ true
unfolding discard
is_nil-discard a [] h = refl
is_nil-discard a (x ∷ xs) h = cc

releases-Inv : (w : World) (i job : ℕ) → Inv w → Inv (step w (releases i job))
unfolding step release_store
releases-Inv w i job v = update-Inv w i _ v λ g here ok others. (
  ground (arith, is_nil-discard job g.store_jobs),
  λ j h d l. ground (arith, others j h d l, is_nil-discard job g.store_jobs),
)

unfences-Inv : (w : World) (i : ℕ) → Inv w → Inv (step w (unfences i))
unfolding step unfence
unfences-Inv w i v =
    update-Inv w i _ v λ g here ok others. (ground arith, λ j h d l. ground (arith, others j h d l))

disowns-Inv : (w : World) (i : ℕ) → Inv w → Inv (step w (disowns i))
unfolding step disown
disowns-Inv w i v =
    update-Inv w i _ v λ g here ok others. (ground arith, λ j h d l. ground (arith, others j h d l))

closes-Inv : (w : World) (i : ℕ) → Inv w → Inv (step w (closes i))
unfolding step close_files
closes-Inv w i v =
    update-Inv w i _ v λ g here ok others. (ground arith, λ j h d l. ground (arith, others j h d l))

starts-Inv : (w : World) (i : ℕ) → Inv w → Inv (step w (starts i))
unfolding step init
starts-Inv w i v = elim (Bool-cases (has i w)) [
  | inl old ↦ rw old v
  | inr new ↦ rw new (put-Inv w i init init v (init-GateOk, λ j h d l. ground arith))
]

crashes-Inv : (w : World) (i : ℕ) → Inv w → Inv (step w (crashes i))
unfolding step
crashes-Inv w i v = record {
  each = λ j g l. v.each j g (ground (arith, lookup-del i j w));
  pairs = λ j k g h d l m.
      v.pairs j k g h d (ground (arith, lookup-del i j w)) (ground (arith, lookup-del i k w));
}

-- Each system call of each process, and the start and end of a process, keeps the invariant.
pub step-Inv : (w : World) (a : Action) → Inv w → Inv (step w a)
step-Inv w (begins i) v = begins-Inv w i v
step-Inv w (fences i) v = fences-Inv w i v
step-Inv w (probes i) v = probes-Inv w i v
step-Inv w (writes i job) v = writes-Inv w i job v
step-Inv w (probed i) v = probed-Inv w i v
step-Inv w (releases i job) v = releases-Inv w i job v
step-Inv w (unfences i) v = unfences-Inv w i v
step-Inv w (disowns i) v = disowns-Inv w i v
step-Inv w (closes i) v = closes-Inv w i v
step-Inv w (starts i) v = starts-Inv w i v
step-Inv w (crashes i) v = crashes-Inv w i v

run-Inv : (w : World) (acts : List Action) → Inv w → Inv (run w acts)
unfolding run
run-Inv w [] v = v
run-Inv w (a ∷ acts) v = run-Inv (step w a) acts (step-Inv w a v)

-- so it holds after any interleaving of the system calls of any processes
pub run_empty-Inv : (acts : List Action) → Inv (run [] acts)
unfolding lookup
run_empty-Inv acts = run-Inv [] acts (record { each = λ i g l. cc; pairs = λ i j g h d l m. cc })
