-- ===== src/AsyncLookup/InFlight/Cleanups.antt =====
-- The end of a request forgets no unresolved key that another request asks for.
use deepseek_v4_flash_mi300x.Prelude.{
  ℕ, ◌≡◌, refl, some, List, [], ◌∷◌, Option-cases, List-cases, inl, inr, add, discard, mem-add,
  arith,
}
use deepseek_v4_flash_mi300x.Prelude.Map.{lookup, del, lookup-del}
use deepseek_v4_flash_mi300x.AsyncLookup.{
  LookupState, Manager, leave_state, leave_key, leave_keys, cleanup, keys_of,
}
use deepseek_v4_flash_mi300x.AsyncLookup.InFlight.{Inv, none_else}
use deepseek_v4_flash_mi300x.AsyncLookup.InFlight.Results.{put_state-InvWith}

-- a state that nobody asks for any more
drop_state-Inv :
    (key cancelled : ℕ) (st : LookupState) (m : Manager)
    → lookup key m.lookup_state ≡ some st
    → Inv m
    → Inv (record m {
      cancelled_keys_delta = cancelled;
      cleared = add st.active m.cleared;
      lookup_state = del key m.lookup_state;
    })
drop_state-Inv key cancelled st m here v = record {
  positive = v.positive;
  fits = v.fits;
  live = λ k s l. ground (
    arith,
    lookup-del key k m.lookup_state,
    mem-add st.active s.active m.cleared,
    v.own key k st s here,
    v.live k s,
  );
  below = λ k s l. ground (arith, lookup-del key k m.lookup_state, v.below k s);
  cleared_below =
      λ t h. ground (arith, mem-add st.active t m.cleared, v.below key st here, v.cleared_below t);
  own = λ j k a b la lb e.
      ground
        (arith, lookup-del key j m.lookup_state, lookup-del key k m.lookup_state, v.own j k a b);
  not_lost = λ k s l u. ground (arith, lookup-del key k m.lookup_state, v.not_lost k s);
}

leave_state-Inv :
    (req key : ℕ) (st : LookupState) (m : Manager)
    → lookup key m.lookup_state ≡ some st
    → Inv m
    → Inv (leave_state req key m st)
unfolding leave_state
leave_state-Inv req key st m here v = elim (List-cases (discard req st.request_ids)) [
  | inl alone ↦ rw (alone, leave_state) (drop_state-Inv key _ st m here v)
  | inr (r, rest, shared) ↦
      rw (shared, leave_state)
        (put_state-InvWith none_else none_else key st (record st { request_ids = r ∷ rest })
          m.req_keys m here refl (λ u. u) (λ k t p h. h) v)
]

leave_key-Inv : (req key : ℕ) (m : Manager) → Inv m → Inv (leave_key req key m)
unfolding leave_key
leave_key-Inv req key m v = elim (Option-cases (lookup key m.lookup_state)) [
  | inl gone ↦ rw (gone, leave_key) v
  | inr (st, here) ↦ rw (here, leave_key) (leave_state-Inv req key st m here v)
]

leave_keys-Inv : (req : ℕ) (keys : List ℕ) (m : Manager) → Inv m → Inv (leave_keys req keys m)
unfolding leave_keys
leave_keys-Inv req [] m v = v
leave_keys-Inv req (key ∷ keys) m v =
    leave_keys-Inv req keys (leave_key req key m) (leave_key-Inv req key m v)

pub cleanup-Inv : (req : ℕ) (m : Manager) → Inv m → Inv (cleanup req m)
unfolding cleanup
cleanup-Inv req m v =
    leave_keys-Inv req (keys_of req m) (record m { req_keys = del req m.req_keys })
      (record {
        positive = v.positive;
        fits = v.fits;
        live = v.live;
        below = v.below;
        cleared_below = v.cleared_below;
        own = v.own;
        not_lost = v.not_lost;
      })
