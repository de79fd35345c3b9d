-- ===== src/EvictionGate/Flock.antt =====
-- What the scan of the other processes says.
use deepseek_v4_flash_mi300x.Prelude.{ℕ, ◌≡◌, ◌≢◌, refl, Bool, true, false, some, [], ◌∷◌, arith}
use deepseek_v4_flash_mi300x.Prelude.Map.{lookup}
use deepseek_v4_flash_mi300x.EvictionGate.{Gate, World, any_other}

any_other-none_in :
    (i j : ℕ) (p : Gate → Bool) (w rest : World) (g h : Gate)
    → any_other i p w rest ≡ false
    → lookup j rest ≡ some h
    → lookup j w ≡ some g
    → j ≢ i
    → p g ≡ false
unfolding any_other lookup
any_other-none_in i j p w [] g h n e l d = ground arith
any_other-none_in i j p w ((k, x) ∷ rest) g h n e l d =
    ground (arith, any_other-none_in i j p w rest g h)

-- where no other process satisfies `p`, each that is there does not
pub any_other-none :
    (i j : ℕ) (p : Gate → Bool) (w : World) (g : Gate)
    → any_other i p w w ≡ false
    → lookup j w ≡ some g
    → j ≢ i
    → p g ≡ false
any_other-none i j p w g n l d = any_other-none_in i j p w w g g n l l d

any_other-false_in :
    (i : ℕ) (p : Gate → Bool) (w rest : World)
    → ((j : ℕ) (g : Gate) → lookup j w ≡ some g → j ≢ i → p g ≡ false)
    → any_other i p w rest ≡ false
unfolding any_other
any_other-false_in i p w [] all = refl
any_other-false_in i p w ((j, x) ∷ rest) all =
    grind (arith, any_other-false_in i p w rest all, all j)

-- and conversely
pub any_other-false :
    (i : ℕ) (p : Gate → Bool) (w : World)
    → ((j : ℕ) (g : Gate) → lookup j w ≡ some g → j ≢ i → p g ≡ false)
    → any_other i p w w ≡ false
any_other-false i p w all = any_other-false_in i p w w all

any_other-true_in :
    (i j : ℕ) (p : Gate → Bool) (w rest : World) (g h : Gate)
    → lookup j rest ≡ some h
    → lookup j w ≡ some g
    → j ≢ i
    → p g ≡ true
    → any_other i p w rest ≡ true
unfolding any_other lookup
any_other-true_in i j p w [] g h e l d t = ground arith
any_other-true_in i j p w ((k, x) ∷ rest) g h e l d t =
    ground (arith, any_other-true_in i j p w rest g h)

pub any_other-true :
    (i j : ℕ) (p : Gate → Bool) (w : World) (g : Gate)
    → lookup j w ≡ some g
    → j ≢ i
    → p g ≡ true
    → any_other i p w w ≡ true
any_other-true i j p w g l d t = any_other-true_in i j p w w g g l l d t
