-- ===== src/AsyncLookup/InFlight.antt =====
-- No unresolved key is forgotten: it has an item on its way, or a result that is to be drained.
use deepseek_v4_flash_mi300x.Prelude.{
  ◌≤◌, length, ℕ, ◌<◌, ◌≡◌, refl, Bool, true, false, ◌&&◌, ◌||◌, none, some, List, [], ◌∷◌, ◌++◌,
  ◌==◌, Option-cases, inl, inr, mem, arith,
}
use deepseek_v4_flash_mi300x.Prelude.Map.{lookup, lookup-put}
use deepseek_v4_flash_mi300x.AsyncLookup.{LookupState, Item, Manager, set_result}
pub mod Results
pub mod Lookups
pub mod Cleanups
pub mod Workers
pub mod Flushes
pub mod Runs
pub mod Turns
pub mod Progress

-- an item of the key with the token, in a list and in a list of lists
unfoldable pub has_item : ℕ → ℕ → List Item → Bool
has_item k t [] = false
has_item k t (i ∷ items) = (i.key == k && i.token == t) || has_item k t items

unfoldable pub in_batches : ℕ → ℕ → List (List Item) → Bool
in_batches k t [] = false
in_batches k t (b ∷ bs) = has_item k t b || in_batches k t bs

unfoldable pub has_result : ℕ → List (ℕ × Bool) → Bool
has_result k [] = false
has_result k ((j, _) ∷ rs) = j == k || has_result k rs

unfoldable pub in_results : ℕ → List (List (ℕ × Bool)) → Bool
in_results k [] = false
in_results k (b ∷ bs) = has_result k b || in_results k bs

abbrev pub is_on_its_way : Manager → ℕ → ℕ → Bool
is_on_its_way m k t =
    has_item k t m.lookup_batch
    || (in_batches k t m.lookup_queue
        || (in_batches k t m.running || in_results k m.pending_results))

-- An unresolved key is on its way, or where `extra` says. Tokens of live states are set, below the counter, and each its own; cleared ones are below it.
pub record InvWith (extra : ℕ → ℕ → Bool) (m : Manager) : Type 0 where
  pub positive : 0 < m.max_keys_per_batch
  pub fits : length m.lookup_queue ≤ m.max_pending_batches
  pub live :
      (k : ℕ) (st : LookupState)
      → lookup k m.lookup_state ≡ some st
      → mem st.active m.cleared ≡ false
  pub below :
      (k : ℕ) (st : LookupState) → lookup k m.lookup_state ≡ some st → st.active < m.next_token
  pub cleared_below : (t : ℕ) → mem t m.cleared ≡ true → t < m.next_token
  pub own :
      (j k : ℕ) (a b : LookupState)
      → lookup j m.lookup_state ≡ some a
      → lookup k m.lookup_state ≡ some b
      → a.active ≡ b.active
      → j ≡ k
  pub not_lost :
      (k : ℕ) (st : LookupState)
      → lookup k m.lookup_state ≡ some st
      → st.result ≡ none
      → is_on_its_way m k st.active || extra k st.active ≡ true

abbrev pub none_else : ℕ → ℕ → Bool
none_else k t = false

abbrev pub Inv : Manager → Type 0
Inv m = InvWith none_else m

pub has_item-append :
    (k t : ℕ) (xs ys : List Item) → has_item k t (xs ++ ys) ≡ (has_item k t xs || has_item k t ys)
unfolding has_item
has_item-append k t [] ys = refl
has_item-append k t (x ∷ xs) ys = ground (arith, has_item-append k t xs ys)

pub in_batches-append :
    (k t : ℕ) (xs ys : List (List Item))
    → in_batches k t (xs ++ ys) ≡ (in_batches k t xs || in_batches k t ys)
unfolding in_batches
in_batches-append k t [] ys = refl
in_batches-append k t (x ∷ xs) ys = ground (arith, in_batches-append k t xs ys)

pub in_results-append :
    (k : ℕ) (xs ys : List (List (ℕ × Bool)))
    → in_results k (xs ++ ys) ≡ (in_results k xs || in_results k ys)
unfolding in_results
in_results-append k [] ys = refl
in_results-append k (x ∷ xs) ys = ground (arith, in_results-append k xs ys)
