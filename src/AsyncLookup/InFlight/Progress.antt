-- ===== src/AsyncLookup/InFlight/Progress.antt =====
-- A lookup after a flush and the workers' turns (`lookup`, patches/async_lookup.bounded.py).
use deepseek_v4_flash_mi300x.Prelude.{
  ℕ, ◌≤◌, ◌≡◌, refl, subst, sym, ◌∙◌, ap, Bool, true, false, some, List, [], ◌∷◌, if◌then◌else◌,
  List-cases, Option-cases, inl, inr, arith,
}
use deepseek_v4_flash_mi300x.Prelude.Map.{lookup}
use deepseek_v4_flash_mi300x.AsyncLookup.{
  LookupState, Manager, created, init, set_result, apply_results, apply_batches, drain_results,
  drain_if_needed, ensure_state, join_state, lookup_key, pending_batches,
}
use deepseek_v4_flash_mi300x.AsyncLookup.Flush.{flush}
use deepseek_v4_flash_mi300x.AsyncLookup.InFlight.{Inv, has_item, in_batches, in_results}
use deepseek_v4_flash_mi300x.AsyncLookup.InFlight.Results.{drain_if_needed-Inv}
use deepseek_v4_flash_mi300x.AsyncLookup.InFlight.Flushes.{flush-Inv}
use deepseek_v4_flash_mi300x.AsyncLookup.InFlight.Runs.{Call, run, AllAllowed, run-Inv, init-Inv}
use deepseek_v4_flash_mi300x.AsyncLookup.InFlight.Turns.{
  Backend, Answering, turns, turns-Inv, Flushed, set_result-Flushed, same_states, flush-Flushed,
  turns-Flushed, turns_done,
}

-- nothing is left to answer or to drain
record Settled (m : Manager) : Type 0 where
  items : m.lookup_batch ≡ []
  batches : m.lookup_queue ≡ []
  taken : m.running ≡ []
  results : m.pending_results ≡ []

set_result-Settled :
    (key : ℕ) (value : Bool) (m : Manager) → Settled m → Settled (set_result key value m)
unfolding set_result
set_result-Settled key value m v = elim (Option-cases (lookup key m.lookup_state)) [
  | inl gone ↦ rw (gone, set_result) v
  | inr (st, here) ↦
      rw (here, set_result)
        (record { items = v.items; batches = v.batches; taken = v.taken; results = v.results })
]

-- what a result leaves of a manager, the results of a batch leave of it
apply_results_keep :
    (P : Manager → Type 0)
    → ((key : ℕ) (value : Bool) (m : Manager) → P m → P (set_result key value m))
    → (b : List (ℕ × Bool)) (m : Manager) → P m
    → P (apply_results b m)
unfolding apply_results
apply_results_keep P keep [] m v = v
apply_results_keep P keep ((key, value) ∷ b) m v =
    apply_results_keep P keep b _ (keep key value m v)

apply_batches_keep :
    (P : Manager → Type 0)
    → ((key : ℕ) (value : Bool) (m : Manager) → P m → P (set_result key value m))
    → (bs : List (List (ℕ × Bool))) (m : Manager) → P m
    → P (apply_batches bs m)
unfolding apply_batches
apply_batches_keep P keep [] m v = v
apply_batches_keep P keep (b ∷ bs) m v =
    apply_batches_keep P keep bs _ (apply_results_keep P keep b m v)

nothing_pending : (m : Manager) → pending_batches m ≡ 0 → (m.lookup_queue ≡ []) × (m.running ≡ [])
unfolding pending_batches
nothing_pending m h = elim (List-cases m.lookup_queue) [
  | inr (b, queue, next) ↦ absurd (ground arith)
  | inl idle ↦ elim (List-cases m.running) [
    | inr (b, others, running) ↦ absurd (ground arith)
    | inl none_taken ↦ (idle, none_taken)
  ]
]

drain_due :
    (m : Manager)
    → m.need_to_drain ≡ true
    → drain_if_needed m ≡ record (drain_results m) { need_to_drain = false }
unfolding drain_if_needed
drain_due m due = ap (λ b. if b then record (drain_results m) { need_to_drain = false } else m) due

-- the drained manager of a lookup
drained :
    (k : ℕ) (m : Manager)
    → Flushed k m
    → pending_batches m ≡ 0
    → Settled (drain_if_needed m)
      × ((st : LookupState) × (lookup k (drain_if_needed m).lookup_state ≡ some st))
unfolding drain_results
drained k m v h =
    let (idle, none_taken) = nothing_pending m h in
    let start : Manager = record m { pending_results = [] } in
    let settled =
      apply_batches_keep Settled set_result-Settled m.pending_results start
        (record { items = v.empty; batches = idle; taken = none_taken; results = refl }) in
    let flushed =
      apply_batches_keep (Flushed k) (set_result-Flushed k) m.pending_results start
        (same_states k m start refl refl refl v) in
    subst (λ x. Settled x × ((st : LookupState) × (lookup k x.lookup_state ≡ some st)))
      (sym (drain_due m v.drains))
      (
        record {
          items = settled.items;
          batches = settled.batches;
          taken = settled.taken;
          results = settled.results;
        },
        flushed.known,
      )

-- a key with a state has a result, once nothing is left
Settled-result :
    (k : ℕ) (m : Manager) (st : LookupState)
    → Inv m
    → Settled m
    → lookup k m.lookup_state ≡ some st
    → (answer : Bool) × (st.result ≡ some answer)
unfolding has_item in_batches in_results
Settled-result k m st v settled here = elim (Option-cases st.result) [
  | inl unknown ↦ absurd (
      ground (
        arith,
        v.not_lost k st here unknown,
        settled.items,
        settled.batches,
        settled.taken,
        settled.results,
      ))
  | inr known ↦ known
]

lookup_known :
    (k req : ℕ) (m : Manager) (st : LookupState)
    → lookup k m.lookup_state ≡ some st
    → (join_state k req (ensure_state k req m)).1 ≡ st.result
unfolding ensure_state join_state
lookup_known k req m st here = rw (here, ensure_state) (rw (here, join_state) refl)

-- From a new manager, after any calls and worker turns in which `batch_lookup` raises or
-- answers for each key it is asked for: once a flush is followed by at least as many turns of a
-- worker as it leaves batches in the queue or with workers, each of them answered in that way,
-- a lookup of a key that had a state before the flush gets an answer.
pub answered_again :
    (p s b w : ℕ) (cs : List Call) (schedule : List ℕ) (f : Backend) (n k req : ℕ)
    (st : LookupState) {m : Manager}
    → init p s b w ≡ created m
    → AllAllowed m cs
    → Answering f
    → lookup k (run m cs).lookup_state ≡ some st
    → let flushed = flush schedule (run m cs) in
      pending_batches flushed ≤ n
      → (answer : Bool) × ((lookup_key k req (turns f n flushed)).1 ≡ some answer)
unfolding lookup_key
answered_again p s b w cs schedule f n k req st {m} e a answering here enough =
    let flushed = flush schedule (run m cs) in
    let last = turns f n flushed in
    let v =
      turns-Inv f n flushed answering
        (flush-Inv schedule (run m cs) (run-Inv m cs a (init-Inv p s b w e))) in
    let (settled, (st', here')) =
      drained k last (turns-Flushed k f n flushed (flush-Flushed k schedule (run m cs) st here))
        (turns_done f n flushed enough) in
    let (answer, known) =
      Settled-result k (drain_if_needed last) st' (drain_if_needed-Inv last v) settled here' in
    (answer, lookup_known k req (drain_if_needed last) st' here' ∙ known)
