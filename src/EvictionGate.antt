-- ===== src/EvictionGate.antt =====
-- patches/tiering-fs-bounded-lru.py, `SharedEvictionGate`: stores and eviction in processes that
-- share one cache. The kernel's part is `flock`: each descriptor carries its own lock on its file,
-- a shared lock is refused while another descriptor of the file holds it exclusively, and an
-- exclusive one while another holds it at all. A process is a number; `world` holds every process.
use deepseek_v4_flash_mi300x.Prelude.{
  ℕ, ◌≡◌, Bool, true, false, not, ◌&&◌, ◌||◌, Option, none, some, List, [], ◌∷◌, ◌==◌,
  if◌then◌else◌, add, discard,
}
use deepseek_v4_flash_mi300x.Prelude.Map.{Map, lookup, has, put, del}
pub mod Flock
pub mod Invariant
pub mod Exclusion

pub data LockMode : Type 0 where
  unlocked shared exclusive : LockMode

pub record Gate : Type 0 where
  pub intent : LockMode  -- `_intent_fd`, on eviction-intent.lock
  pub intent_probe : LockMode  -- `_intent_probe_fd`, on eviction-intent.lock
  pub write : LockMode  -- `_write_fd`, on eviction-writes.lock
  pub eviction_write : LockMode  -- `_eviction_write_fd`, on eviction-writes.lock
  pub owns_eviction : Bool
  pub writes_fenced : Bool
  pub store_jobs : List ℕ
  pub store_lease_held : Bool
  pub closed : Bool

abbrev pub World : Type 0
World = Map Gate

abbrev pub is_locked : LockMode → Bool
is_locked unlocked = false
is_locked _ = true

abbrev pub is_exclusive : LockMode → Bool
is_exclusive exclusive = true
is_exclusive _ = false

abbrev pub holds : (Gate → Bool) → Option Gate → Bool
holds p none = false
holds p (some g) = p g

-- Does a process other than `i` satisfy `p`? The second map lists the processes still to ask.
unfoldable pub any_other : ℕ → (Gate → Bool) → World → World → Bool
any_other i p w [] = false
any_other i p w ((j, _) ∷ rest) = not (j == i) && holds p (lookup j w) || any_other i p w rest

abbrev pub locks_intent : Gate → Bool
locks_intent g = is_locked g.intent || is_locked g.intent_probe

abbrev pub excludes_intent : Gate → Bool
excludes_intent g = is_exclusive g.intent || is_exclusive g.intent_probe

abbrev pub locks_writes : Gate → Bool
locks_writes g = is_locked g.write || is_locked g.eviction_write

abbrev pub excludes_writes : Gate → Bool
excludes_writes g = is_exclusive g.write || is_exclusive g.eviction_write

-- `__init__`
unfoldable pub init : Gate
init = record {
  intent = unlocked;
  intent_probe = unlocked;
  write = unlocked;
  eviction_write = unlocked;
  owns_eviction = false;
  writes_fenced = false;
  store_jobs = [];
  store_lease_held = false;
  closed = false;
}

-- `try_begin_eviction`, in a world `w` where the process is `i`. On a closed gate the source raises
-- where the model may take the lock: its runs are among those of the model.
unfoldable pub try_begin_eviction : World → ℕ → Gate → Gate × Bool
try_begin_eviction w i g =
    if g.owns_eviction
    then (g, true)
    else (if any_other i locks_intent w w || is_locked g.intent_probe
        then (g, false)
        else (record g { intent = exclusive; owns_eviction = true }, true))

-- `try_fence_writes`
unfoldable pub try_fence_writes : World → ℕ → Gate → Gate × Bool
try_fence_writes w i g =
    if not g.owns_eviction
    then (g, false)
    else (if g.writes_fenced
        then (g, true)
        else (if any_other i locks_writes w w || is_locked g.write
            then (g, false)
            else (record g { eviction_write = exclusive; writes_fenced = true }, true)))

-- `try_pin_store` up to its first system call: the shared intent lock
unfoldable pub pin_probe : World → ℕ → Gate → Gate × Bool
pin_probe w i g =
    if g.closed || g.owns_eviction
    then (g, false)
    else (if any_other i excludes_intent w w || is_exclusive g.intent
        then (g, false)
        else (record g { intent_probe = shared }, true))

-- the body of its `try`: the shared write lease, unless it is held, and the job
unfoldable pub pin_write : World → ℕ → ℕ → Gate → Gate × Bool
pin_write w i job g =
    if g.store_lease_held
    then (record g { store_jobs = add job g.store_jobs }, true)
    else (if any_other i excludes_writes w w || is_exclusive g.eviction_write then (g, false) else (
      record g { write = shared; store_lease_held = true; store_jobs = add job g.store_jobs },
      true,
    ))

-- its `finally`
unfoldable pub pin_done : Gate → Gate
pin_done g = record g { intent_probe = unlocked }

-- `try_pin_store`: each system call meets a world of its own, as other processes run in between
unfoldable pub try_pin_store : World → World → ℕ → ℕ → Gate → Gate × Bool
unfolding pin_probe pin_write pin_done
try_pin_store w w' i job g =
    let (probed, admitted) = pin_probe w i g in
    let (written, pinned) = pin_write w' i job probed in
    if admitted then (pin_done written, pinned) else (probed, false)

abbrev pub is_nil : List ℕ → Bool
is_nil [] = true
is_nil (x ∷ xs) = false

-- `release_store`
unfoldable pub release_store : ℕ → Gate → Gate
release_store job g =
    let jobs = discard job g.store_jobs in
    if g.store_lease_held && is_nil jobs
    then record g { store_jobs = jobs; write = unlocked; store_lease_held = false }
    else record g { store_jobs = jobs }

-- `eviction_active`
unfoldable pub eviction_active : World → ℕ → Gate → Bool
eviction_active w i g =
    g.owns_eviction || (any_other i excludes_intent w w || is_exclusive g.intent)

-- the two halves of `finish_eviction`
unfoldable pub unfence : Gate → Gate
unfence g =
    if g.writes_fenced then record g { eviction_write = unlocked; writes_fenced = false } else g

unfoldable pub disown : Gate → Gate
disown g = if g.owns_eviction then record g { intent = unlocked; owns_eviction = false } else g

-- `finish_eviction`
unfoldable pub finish_eviction : Gate → Gate
unfolding unfence disown
finish_eviction g = disown (unfence g)

-- `close` after its `finish_eviction`: closing a descriptor drops its lock
unfoldable pub close_files : Gate → Gate
close_files g = record g {
  intent = unlocked;
  intent_probe = unlocked;
  write = unlocked;
  eviction_write = unlocked;
  store_lease_held = false;
  store_jobs = [];
  closed = true;
}

-- `close`
unfoldable pub close : Gate → Gate
unfolding finish_eviction close_files
close g = if g.closed then g else close_files (finish_eviction g)

-- One system call of one process, in the order in which its method makes them. `starts` and
-- `crashes` are the life of a process; the kernel drops the locks of one that ends.
pub data Action : Type 0 where
  begins fences probes probed unfences disowns closes starts crashes : ℕ → Action
  writes releases : ℕ → ℕ → Action

-- The calls that a method makes after its first one are guarded by what the first one left.
abbrev pub write_call : World → ℕ → ℕ → Gate → Gate
write_call w i job g = elim g.intent_probe [ shared ↦ (pin_write w i job g).0 | _ ↦ g ]

abbrev pub disown_call : Gate → Gate
disown_call g = if g.writes_fenced then g else disown g

abbrev pub close_call : Gate → Gate
close_call g = if g.owns_eviction || g.closed then g else close_files g

abbrev pub update : ℕ → (Gate → Gate) → World → World
update i f w = elim (lookup i w) [ none ↦ w | some g ↦ put i (f g) w ]

unfoldable pub step : World → Action → World
step w (begins i) = update i (λ g. (try_begin_eviction w i g).0) w
step w (fences i) = update i (λ g. (try_fence_writes w i g).0) w
step w (probes i) = update i (λ g. (pin_probe w i g).0) w
step w (writes i job) = update i (write_call w i job) w
step w (probed i) = update i pin_done w
step w (releases i job) = update i (release_store job) w
step w (unfences i) = update i unfence w
step w (disowns i) = update i disown_call w
step w (closes i) = update i close_call w
step w (starts i) = if has i w then w else put i init w
step w (crashes i) = del i w

unfoldable pub run : World → List Action → World
run w [] = w
run w (a ∷ acts) = run (step w a) acts
