-- ===== src/AsyncLookup/InFlight/Results.antt =====
-- Results, drained or forced, forget no unresolved key.
use deepseek_v4_flash_mi300x.Prelude.{
  ℕ, ◌≡◌, ◌⊎◌, refl, Bool, true, false, none, some, List, [], ◌∷◌, ◌==◌, if◌then◌else◌, Bool-cases,
  Option-cases, inl, inr, arith,
}
use deepseek_v4_flash_mi300x.Prelude.Map.{Map, lookup, put, lookup-put}
use deepseek_v4_flash_mi300x.AsyncLookup.{
  LookupState, Manager, set_result, apply_results, apply_batches, drain_results, drain_if_needed,
  invalidate,
}
use deepseek_v4_flash_mi300x.AsyncLookup.InFlight.{InvWith, Inv, none_else, has_result, in_results}

-- A state may change as long as its token stays and a result is not lost; for the key itself, or if
-- the state has a result afterwards, what is still to come may be forgotten.
pub put_state-InvWith :
    (extra extra' : ℕ → ℕ → Bool) (key : ℕ) (st st' : LookupState) (keys : Map (List ℕ))
    (m : Manager)
    → lookup key m.lookup_state ≡ some st
    → st'.active ≡ st.active
    → (st'.result ≡ none → st.result ≡ none)
    → ((k t : ℕ)
        → ((key == k) ≡ false) ⊎ (st'.result ≡ none)
        → extra k t ≡ true
        → extra' k t ≡ true)
    → InvWith extra m
    → InvWith extra' (record m { lookup_state = put key st' m.lookup_state; req_keys = keys })
put_state-InvWith extra extra' key st st' keys m here same unresolved keep v = record {
  positive = v.positive;
  fits = v.fits;
  live = λ k s l.
      ground (arith, same, lookup-put key k st' m.lookup_state, v.live key st here, v.live k s);
  below = λ k s l.
      ground (arith, same, lookup-put key k st' m.lookup_state, v.below key st here, v.below k s);
  cleared_below = v.cleared_below;
  own = λ j k a b la lb e. ground (
    arith,
    same,
    lookup-put key j st' m.lookup_state,
    lookup-put key k st' m.lookup_state,
    v.own key k st b here,
    v.own j key a st,
    v.own j k a b,
  );
  not_lost = λ k s l u. elim (Bool-cases (key == k)) [
    | inl this ↦ ground (
      arith,
      same,
      unresolved,
      lookup-put key k st' m.lookup_state,
      v.not_lost key st here,
      keep k s.active,
    )
    | inr other ↦
        ground
          (arith, lookup-put key k st' m.lookup_state, v.not_lost k s, keep k s.active (inl other))
  ];
}

-- A result resolves its key; what is still to come for it may be forgotten.
pub set_result-InvWith :
    (extra extra' : ℕ → ℕ → Bool) (key : ℕ) (value : Bool) (m : Manager)
    → ((k t : ℕ) → (key == k) ≡ false → extra k t ≡ true → extra' k t ≡ true)
    → InvWith extra m
    → InvWith extra' (set_result key value m)
unfolding set_result
set_result-InvWith extra extra' key value m keep v =
    elim (Option-cases (lookup key m.lookup_state)) [
      | inl gone ↦
          rw (gone, set_result)
            (record {
              positive = v.positive;
              fits = v.fits;
              live = v.live;
              below = v.below;
              cleared_below = v.cleared_below;
              own = v.own;
              not_lost = λ k s l u. ground (arith, v.not_lost k s, keep k s.active);
            })
      | inr (st, here) ↦
          rw (here, set_result)
            (put_state-InvWith extra extra' key st (record st { result = some value }) m.req_keys m
              here refl (λ u. absurd (ground arith)) (λ k t p h. ground (arith, keep k t)) v)
    ]

apply_results-InvWith :
    (bs : List (List (ℕ × Bool))) (b : List (ℕ × Bool)) (m : Manager)
    → InvWith (λ k t. in_results k (b ∷ bs)) m
    → InvWith (λ k t. in_results k bs) (apply_results b m)
unfolding apply_results in_results has_result
apply_results-InvWith bs [] m v = v
apply_results-InvWith bs ((key, value) ∷ b) m v =
    apply_results-InvWith bs b (set_result key value m) (
      set_result-InvWith (λ k t. in_results k (((key, value) ∷ b) ∷ bs))
        (λ k t. in_results k (b ∷ bs)) key value m (λ k t d e. ground arith) v)

apply_batches-Inv :
    (bs : List (List (ℕ × Bool))) (m : Manager)
    → InvWith (λ k t. in_results k bs) m
    → Inv (apply_batches bs m)
unfolding apply_batches in_results
apply_batches-Inv [] m v = v
apply_batches-Inv (b ∷ bs) m v =
    apply_batches-Inv bs (apply_results b m) (apply_results-InvWith bs b m v)

drain_results-Inv : (m : Manager) → Inv m → Inv (drain_results m)
unfolding drain_results in_results
drain_results-Inv m v =
    apply_batches-Inv m.pending_results (record m { pending_results = [] })
      (record {
        positive = v.positive;
        fits = v.fits;
        live = v.live;
        below = v.below;
        cleared_below = v.cleared_below;
        own = v.own;
        not_lost = λ k s l u. ground (arith, v.not_lost k s l u);
      })

drain_if-Inv :
    (due : Bool) (m : Manager)
    → Inv m
    → Inv (if due then record (drain_results m) { need_to_drain = false } else m)
drain_if-Inv false m v = v
drain_if-Inv true m v =
    let d = drain_results-Inv m v in
    record {
      positive = d.positive;
      fits = d.fits;
      live = d.live;
      below = d.below;
      cleared_below = d.cleared_below;
      own = d.own;
      not_lost = d.not_lost;
    }

pub drain_if_needed-Inv : (m : Manager) → Inv m → Inv (drain_if_needed m)
unfolding drain_if_needed
drain_if_needed-Inv m v = drain_if-Inv m.need_to_drain m v

pub invalidate-Inv : (keys : List ℕ) (m : Manager) → Inv m → Inv (invalidate keys m)
unfolding invalidate
invalidate-Inv [] m v = v
invalidate-Inv (key ∷ keys) m v =
    invalidate-Inv keys (set_result key false m)
      (set_result-InvWith none_else none_else key false m (λ k t d e. e) v)
