-- ===== src/Prelude/Totals.antt =====
-- Sums over the values of a dict, and the dicts that hold a key once.
use Prim.Native.Nat.{ℕ, ◌+◌, ◌≤◌}
use mathlib.Core.Path.{◌≡◌, refl, subst}
use mathlib.Core.Logic.{inl, inr}
use mathlib.Core.Bool.{true, false, not, ◌&&◌}
use mathlib.Core.Option.{Option, none, some}
use mathlib.Core.List.{List, [], ◌∷◌, ◌++◌}
use native.Mathlib.Omega.{arith}
use deepseek_v4_flash_mi300x.Prelude.Tests.{Bool-cases, ◌==◌, if◌then◌else◌}
use deepseek_v4_flash_mi300x.Prelude.Lists.{mem, add}
use deepseek_v4_flash_mi300x.Prelude.Map.{Map, lookup, has, put, del, lookup-put, lookup-del}

module _ {ℓ} {V : Type ℓ} where
  abbrev pub IsDict : Map V → Type 0
  IsDict [] = Unit {0}
  IsDict ((k, v) ∷ m) = (has k m ≡ false) × IsDict m

  pub put-IsDict : (k : ℕ) (v : V) (m : Map V) → IsDict m → IsDict (put k v m)
  unfolding put lookup
  put-IsDict k v [] d = (refl, tt)
  put-IsDict k v ((j, w) ∷ m) d = ground (arith, put-IsDict k v m, lookup-put k j v m)

  pub del-IsDict : (k : ℕ) (m : Map V) → IsDict m → IsDict (del k m)
  unfolding del
  del-IsDict k [] d = tt
  del-IsDict k ((j, w) ∷ m) d = ground (arith, del-IsDict k m, lookup-del k j m)

  unfoldable pub total : (V → ℕ) → Map V → ℕ
  total f [] = 0
  total f ((k, v) ∷ m) = f v + total f m

  abbrev pub worth : (V → ℕ) → Option V → ℕ
  worth f none = 0
  worth f (some v) = f v

  pub total-put :
      (f : V → ℕ) (k : ℕ) (v : V) (m : Map V)
      → total f (put k v m) + worth f (lookup k m) ≡ total f m + f v
  unfolding total put lookup
  total-put f k v [] = ground arith
  total-put f k v ((j, w) ∷ m) = ground (arith, total-put f k v m)

  del_absent : (k : ℕ) (m : Map V) → has k m ≡ false → del k m ≡ m
  unfolding del lookup
  del_absent k [] h = refl
  del_absent k ((j, w) ∷ m) h = ground (arith, del_absent k m)

  pub total-del :
      (f : V → ℕ) (k : ℕ) (m : Map V)
      → IsDict m
      → total f (del k m) + worth f (lookup k m) ≡ total f m
  unfolding total del lookup
  total-del f k [] d = ground arith
  total-del f k ((j, w) ∷ m) d = ground (arith, total-del f k m, del_absent k m)

  pub worth-le-total : (f : V → ℕ) (k : ℕ) (m : Map V) → worth f (lookup k m) ≤ total f m
  unfolding total lookup
  worth-le-total f k [] = omega arith
  worth-le-total f k ((j, w) ∷ m) = ground (arith, worth-le-total f k m)

module _ {ℓ κ} {V : Type ℓ} (P : V → Type κ) where
  -- every value of the dict
  abbrev pub AllValues : Map V → Type κ
  AllValues [] = Unit
  AllValues ((k, v) ∷ m) = P v × AllValues m

module _ {ℓ κ} {V : Type ℓ} (P : V → Type κ) where
  pub AllValues-lookup : (k : ℕ) (m : Map V) {v : V} → AllValues P m → lookup k m ≡ some v → P v
  unfolding lookup
  AllValues-lookup k [] a h = absurd (ground arith)
  AllValues-lookup k ((j, w) ∷ m) a h = elim (Bool-cases (j == k)) [
    | inl here ↦ subst P (ground arith) a.0
    | inr there ↦ AllValues-lookup k m a.1 (ground arith)
  ]

  pub put-AllValues : (k : ℕ) (v : V) (m : Map V) → P v → AllValues P m → AllValues P (put k v m)
  unfolding put
  put-AllValues k v [] p a = (p, tt)
  put-AllValues k v ((j, w) ∷ m) p a = elim (Bool-cases (j == k)) [
    | inl here ↦ rw here (p, a.1)
    | inr there ↦ rw there (a.0, put-AllValues k v m p a.1)
  ]

  pub del-AllValues : (k : ℕ) (m : Map V) → AllValues P m → AllValues P (del k m)
  unfolding del
  del-AllValues k [] a = tt
  del-AllValues k ((j, w) ∷ m) a = elim (Bool-cases (j == k)) [
    | inl here ↦ rw here (del-AllValues k m a.1)
    | inr there ↦ rw there (a.0, del-AllValues k m a.1)
  ]

unfoldable pub occurrences : ℕ → List ℕ → ℕ
occurrences a [] = 0
occurrences a (x ∷ xs) = (if x == a then 1 else 0) + occurrences a xs

pub occurrences-append :
    (a : ℕ) (xs ys : List ℕ) → occurrences a (xs ++ ys) ≡ occurrences a xs + occurrences a ys
unfolding occurrences
occurrences-append a [] ys = omega arith
occurrences-append a (x ∷ xs) ys = omega (arith, occurrences-append a xs ys)

pub occurrences-add :
    (a x : ℕ) (xs : List ℕ)
    → occurrences a (add x xs) ≡ occurrences a xs + (if x == a && not (mem x xs) then 1 else 0)
unfolding occurrences add mem
occurrences-add a x [] = ground arith
occurrences-add a x (y ∷ xs) = ground (arith, occurrences-add a x xs)

pub occurrences-mem : (a : ℕ) (xs : List ℕ) → mem a xs ≡ false → occurrences a xs ≡ 0
unfolding occurrences mem
occurrences-mem a [] h = refl
occurrences-mem a (x ∷ xs) h = ground (arith, occurrences-mem a xs)

pub occurrences-pos : (a : ℕ) (xs : List ℕ) → mem a xs ≡ true → 1 ≤ occurrences a xs
unfolding occurrences mem
occurrences-pos a [] h = ground arith
occurrences-pos a (x ∷ xs) h = ground (arith, occurrences-pos a xs)
