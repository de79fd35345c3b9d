-- ===== src/Prelude/Map.antt =====
-- A Python `dict` with numbered keys, in insertion order.
use Prim.Native.Nat.{ℕ, suc, ◌≤◌, ◌<◌}
use mathlib.Core.Path.{◌≡◌, refl}
use mathlib.Core.Bool.{Bool, true}
use mathlib.Core.Option.{Option, none, some}
use mathlib.Core.List.{List, [], ◌∷◌}
use native.Mathlib.Omega.{arith}
use deepseek_v4_flash_mi300x.Prelude.Tests.{◌==◌, if◌then◌else◌, is_some}
use deepseek_v4_flash_mi300x.Prelude.Lists.{length}

abbrev pub Map {ℓ} : Type ℓ → Type ℓ
Map V = List (ℕ × V)

module _ {ℓ} {V : Type ℓ} where
  -- `m.get(k)`
  unfoldable pub lookup : ℕ → Map V → Option V
  lookup k [] = none
  lookup k ((j, v) ∷ m) = if j == k then some v else lookup k m

  -- `k in m`
  abbrev pub has : ℕ → Map V → Bool
  has k m = is_some (lookup k m)

  -- `m[k] = v`
  unfoldable pub put : ℕ → V → Map V → Map V
  put k v [] = (k, v) ∷ []
  put k v ((j, w) ∷ m) = if j == k then (j, v) ∷ m else (j, w) ∷ put k v m

  -- `m.pop(k, None)`: the map that is left
  unfoldable pub del : ℕ → Map V → Map V
  del k [] = []
  del k ((j, v) ∷ m) = if j == k then del k m else (j, v) ∷ del k m

  -- `m.setdefault(k, v)`
  unfoldable pub set_default : ℕ → V → Map V → Map V
  set_default k v m = if has k m then m else put k v m

  pub lookup-put :
      (k j : ℕ) (v : V) (m : Map V) → lookup j (put k v m) ≡ (if k == j then some v else lookup j m)
  unfolding lookup put
  lookup-put k j v [] = refl
  lookup-put k j v ((i, w) ∷ m) = ground (arith, lookup-put k j v m)

  pub lookup-del :
      (k j : ℕ) (m : Map V) → lookup j (del k m) ≡ (if k == j then none else lookup j m)
  unfolding lookup del
  lookup-del k j [] = ground arith
  lookup-del k j ((i, w) ∷ m) = ground (arith, lookup-del k j m)

  pub lookup-set_default :
      (k j : ℕ) (v : V) (m : Map V)
      → lookup j (set_default k v m)
        ≡ (if has k m then lookup j m else (if k == j then some v else lookup j m))
  unfolding set_default
  lookup-set_default k j v m = ground (arith, lookup-put k j v m)

  pub length-put :
      (k : ℕ) (v : V) (m : Map V)
      → length (put k v m) ≡ (if has k m then length m else suc (length m))
  unfolding lookup put
  length-put k v [] = refl
  length-put k v ((i, w) ∷ m) = ground (arith, length-put k v m)

  pub length-del-le : (k : ℕ) (m : Map V) → length (del k m) ≤ length m
  unfolding del
  length-del-le k [] = omega arith
  length-del-le k ((i, w) ∷ m) = ground (arith, length-del-le k m)

  pub length-del-lt : (k : ℕ) (m : Map V) → has k m ≡ true → length (del k m) < length m
  unfolding lookup del
  length-del-lt k [] h = ground arith
  length-del-lt k ((i, w) ∷ m) h = ground (arith, length-del-lt k m, length-del-le k m)
