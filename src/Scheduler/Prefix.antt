-- ===== src/Scheduler/Prefix.antt =====
-- What `_maximal_prefix_lookup` finds.
use deepseek_v4_flash_mi300x.Prelude.{
  ℕ, zero, suc, ◌+◌, ◌≡◌, ◌⊎◌, inl, inr, refl, Bool, true, false, none, some, List, [], ◌∷◌, arith,
}
use deepseek_v4_flash_mi300x.Scheduler.{
  Found, hit, hit_pending, retry, miss, scan_prefix, maximal_prefix_lookup,
}

-- the first `n` keys are hits, and they are all of them or the next one is a miss
unfoldable pub is_hit_prefix : (ℕ → Found) → List ℕ → ℕ → Bool
is_hit_prefix manager [] zero = true
is_hit_prefix manager [] (suc n) = false
is_hit_prefix manager (key ∷ keys) zero = elim (manager key) [ miss ↦ true | _ ↦ false ]
is_hit_prefix manager (key ∷ keys) (suc n) =
    let rest = is_hit_prefix manager keys n in elim (manager key) [ hit ↦ rest | _ ↦ false ]

Found-cases : (f : Found) → (f ≡ hit) ⊎ ((f ≡ miss) ⊎ ((f ≡ hit_pending) ⊎ (f ≡ retry)))
Found-cases hit = inl refl
Found-cases miss = inr (inl refl)
Found-cases hit_pending = inr (inr (inl refl))
Found-cases retry = inr (inr (inr refl))

scan_deferred :
    (manager : ℕ → Found) (keys : List ℕ) (hits : ℕ) → scan_prefix manager keys hits true ≡ none
unfolding scan_prefix
scan_deferred manager [] hits = refl
scan_deferred manager (key ∷ keys) hits =
    ground (arith, scan_deferred manager keys hits, scan_deferred manager keys (suc hits))

scan_found :
    (manager : ℕ → Found) (keys : List ℕ) (hits n : ℕ)
    → is_hit_prefix manager keys n ≡ true
    → scan_prefix manager keys hits false ≡ some (hits + n)
unfolding scan_prefix is_hit_prefix
scan_found manager [] hits zero h = ground arith
scan_found manager [] hits (suc n) h = absurd (ground arith)
scan_found manager (key ∷ keys) hits zero h = ground arith
scan_found manager (key ∷ keys) hits (suc n) h =
    ground (arith, scan_found manager keys (suc hits) n)

scan_sound :
    (manager : ℕ → Found) (keys : List ℕ) (hits m : ℕ)
    → scan_prefix manager keys hits false ≡ some m
    → (n : ℕ) × (m ≡ hits + n) × (is_hit_prefix manager keys n ≡ true)
unfolding scan_prefix is_hit_prefix
scan_sound manager [] hits m h = (0, ground arith, refl)
scan_sound manager (key ∷ keys) hits m h = elim (Found-cases (manager key)) [
  | inl is_hit ↦
      let next : scan_prefix manager keys (suc hits) false ≡ some m = ground arith in
      let (n, e, p) = scan_sound manager keys (suc hits) m next in
      (suc n, omega (arith, e), ground (arith, p))
  | inr (inl is_miss) ↦ (0, ground arith, ground arith)
  | inr (inr waits) ↦
      absurd
        (ground (arith, scan_deferred manager keys hits, scan_deferred manager keys (suc hits)))
]

-- The prefix lookup answers a number exactly if the keys begin with that many hits, and these
-- are all the keys or a miss follows them.
pub maximal_prefix_lookup_lem :
    (manager : ℕ → Found) (keys : List ℕ) (n : ℕ)
    → ((maximal_prefix_lookup manager keys ≡ some n) → is_hit_prefix manager keys n ≡ true)
      × (is_hit_prefix manager keys n ≡ true → maximal_prefix_lookup manager keys ≡ some n)
unfolding maximal_prefix_lookup
maximal_prefix_lookup_lem manager keys n = (
  λ h. let (k, e, p) = scan_sound manager keys 0 n h in ground arith,
  λ h. ground (arith, scan_found manager keys 0 n h),
)
