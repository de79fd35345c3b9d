-- ===== src/AsyncLookup/InFlight/Lookups.antt =====
-- A lookup forgets no unresolved key.
use deepseek_v4_flash_mi300x.Prelude.{
  ℕ, suc, ◌≡◌, refl, true, false, none, some, List, [], ◌∷◌, ◌++◌, length, ltb, Bool-cases,
  Option-cases, inl, inr, mem, add, arith,
}
use mathlib.Core.List.{append-nil}
use deepseek_v4_flash_mi300x.Prelude.Map.{lookup, put, lookup-put}
use deepseek_v4_flash_mi300x.AsyncLookup.{
  LookupState, Item, Manager, drain_if_needed, new_state, ensure_state, join_state, lookup_key,
  keys_of,
}
use deepseek_v4_flash_mi300x.AsyncLookup.InFlight.{Inv, none_else, has_item, has_item-append}
use deepseek_v4_flash_mi300x.AsyncLookup.InFlight.Results.{put_state-InvWith, drain_if_needed-Inv}

fresh_token : (m : Manager) → Inv m → mem m.next_token m.cleared ≡ false
fresh_token m v = ground (arith, v.cleared_below m.next_token)

-- a state with a new token, and its item if it is unresolved
add_state-Inv :
    (key : ℕ) (st : LookupState) (items : List Item) (dropped : ℕ) (m : Manager)
    → lookup key m.lookup_state ≡ none
    → st.active ≡ m.next_token
    → (st.result ≡ none → has_item key m.next_token items ≡ true)
    → Inv m
    → Inv (record m {
      next_token = suc m.next_token;
      lookup_state = put key st m.lookup_state;
      lookup_batch = m.lookup_batch ++ items;
      dropped_keys_delta = dropped;
    })
add_state-Inv key st items dropped m gone new queued v = record {
  positive = v.positive;
  fits = v.fits;
  live =
      λ k s l. ground (arith, new, lookup-put key k st m.lookup_state, fresh_token m v, v.live k s);
  below = λ k s l. ground (arith, new, lookup-put key k st m.lookup_state, v.below k s);
  cleared_below = λ t h. ground (arith, v.cleared_below t h);
  own = λ j k a b la lb e. ground (
    arith,
    new,
    lookup-put key j st m.lookup_state,
    lookup-put key k st m.lookup_state,
    v.below j a,
    v.below k b,
    v.own j k a b,
  );
  not_lost = λ k s l u. ground (
    arith,
    new,
    lookup-put key k st m.lookup_state,
    queued,
    has_item-append k s.active m.lookup_batch items,
    v.not_lost k s,
  );
}

new_state-Inv :
    (key req : ℕ) (m : Manager)
    → lookup key m.lookup_state ≡ none
    → Inv m
    → Inv (new_state key req m)
unfolding new_state has_item
new_state-Inv key req m gone v =
    elim (Bool-cases (ltb (length m.lookup_batch) m.max_keys_per_step)) [
      | inl room ↦
          rw (room, new_state)
            (add_state-Inv key (record { result = none; request_ids = []; active = m.next_token })
              (record { key = key; req = req; token = m.next_token } ∷ []) m.dropped_keys_delta m
              gone refl (λ u. ground arith) v)
      | inr full ↦
          rw (full, new_state)
            (rw (append-nil m.lookup_batch) at (
              add_state-Inv key
                (record { result = some false; request_ids = []; active = m.next_token }) []
                (suc m.dropped_keys_delta) m gone refl (λ u. absurd (ground arith)) v))
    ]

ensure_state-Inv : (key req : ℕ) (m : Manager) → Inv m → Inv (ensure_state key req m)
unfolding ensure_state
ensure_state-Inv key req m v = elim (Option-cases (lookup key m.lookup_state)) [
  | inl gone ↦ rw (gone, ensure_state) (new_state-Inv key req m gone v)
  | inr (st, here) ↦ rw (here, ensure_state) v
]

join_state-Inv : (key req : ℕ) (m : Manager) → Inv m → Inv (join_state key req m).0
unfolding join_state
join_state-Inv key req m v = elim (Option-cases (lookup key m.lookup_state)) [
  | inl gone ↦ rw (gone, join_state) v
  | inr (st, here) ↦
      rw (here, join_state)
        (put_state-InvWith none_else none_else key st
          (record st { request_ids = add req st.request_ids })
          (put req (add key (keys_of req m)) m.req_keys) m here refl (λ u. u) (λ k t p h. h) v)
]

pub lookup_key-Inv : (key req : ℕ) (m : Manager) → Inv m → Inv (lookup_key key req m).0
unfolding lookup_key
lookup_key-Inv key req m v =
    join_state-Inv key req (ensure_state key req (drain_if_needed m))
      (ensure_state-Inv key req (drain_if_needed m) (drain_if_needed-Inv m v))
