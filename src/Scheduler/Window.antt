-- ===== src/Scheduler/Window.antt =====
-- What `_sliding_window_lookup` finds.
use deepseek_v4_flash_mi300x.Prelude.{
  ℕ, zero, suc, ◌+◌, ◌≤◌, ◌<◌, ◌≡◌, refl, ap, ◌∙◌, Bool, false, ◌||◌, Option, none, some, List, [],
  ◌∷◌, length, drop, leb, ◌==◌, if◌then◌else◌, arith, Bool-cases, inl, inr,
}
use deepseek_v4_flash_mi300x.Scheduler.{
  Found, hit, hit_pending, retry, miss, streak, defers, unless, scan_window, reverse_onto,
  sliding_window_lookup,
}

-- the keys at the front that are hits, the pending ones among them
unfoldable pub leading_hits : (ℕ → Found) → List ℕ → ℕ
leading_hits manager [] = 0
leading_hits manager (key ∷ keys) =
    let rest = leading_hits manager keys in streak (manager key) rest

-- where the last run of `size` hits starts
unfoldable pub last_window : (ℕ → Found) → ℕ → List ℕ → Option ℕ
last_window manager size [] = none
last_window manager size (key ∷ keys) = elim (last_window manager size keys) [
  | some start ↦ some (suc start)
  | none ↦ if leb size (leading_hits manager (key ∷ keys)) then some 0 else none
]

unfoldable pub any_defers : (ℕ → Found) → List ℕ → Bool
any_defers manager [] = false
any_defers manager (key ∷ keys) = any_defers manager keys || defers (manager key)

-- the end of that run, or the hits at the front where there is none; no answer if one of the keys
-- from the run's start on, or of all keys, is deferred
abbrev pub window_end : (ℕ → Found) → ℕ → List ℕ → Option ℕ → Option ℕ
window_end manager size keys none = unless (any_defers manager keys) (leading_hits manager keys)
window_end manager size keys (some start) =
    unless (any_defers manager (drop start keys)) (start + size)

drop-suc : (n : ℕ) (xs : List ℕ) → drop (suc n) xs ≡ drop 1 (drop n xs)
drop-suc zero xs = refl
drop-suc (suc n) [] = refl
drop-suc (suc n) (x ∷ xs) = drop-suc n xs

drop-reverse_onto : (xs ys : List ℕ) → drop (length xs) (reverse_onto xs ys) ≡ ys
drop-reverse_onto [] ys = refl
drop-reverse_onto (x ∷ xs) ys =
    drop-suc (length xs) (reverse_onto xs (x ∷ ys)) ∙ ap (drop 1) (drop-reverse_onto xs (x ∷ ys))

reverse_twice : (xs ys : List ℕ) → reverse_onto (reverse_onto xs ys) [] ≡ reverse_onto ys xs
reverse_twice [] ys = refl
reverse_twice (x ∷ xs) ys = reverse_twice xs (x ∷ ys)

-- keys put in front move a run that is there, and no later one comes to be
last_window-reverse_onto :
    (manager : ℕ → Found) (size : ℕ) (before after : List ℕ) (start : ℕ)
    → last_window manager size after ≡ some start
    → last_window manager size (reverse_onto before after) ≡ some (length before + start)
unfolding last_window
last_window-reverse_onto manager size [] after start h = ground (arith, h)
last_window-reverse_onto manager size (key ∷ before) after start h =
    last_window-reverse_onto manager size before (key ∷ after) (suc start) (ground (arith, h))
    ∙ ap some (omega arith)

streak_le : (found : Found) (n : ℕ) → streak found n ≤ suc n
streak_le hit n = omega arith
streak_le hit_pending n = omega arith
streak_le retry n = omega arith
streak_le miss n = omega arith

-- `after` are the keys that are scanned already, in their order: they have no full run.
scan_window_lem :
    (manager : ℕ → Found) (size : ℕ) (before after : List ℕ)
    → leading_hits manager after < size
    → last_window manager size after ≡ none
    → scan_window manager size before (leading_hits manager after) (any_defers manager after)
      ≡ window_end manager size
          (reverse_onto before after)
          (last_window manager size (reverse_onto before after))
unfolding scan_window leading_hits last_window any_defers
scan_window_lem manager size [] after short no_run = rw no_run refl
scan_window_lem manager size (key ∷ before) after short no_run =
    let now = leading_hits manager (key ∷ after) in
    elim (Bool-cases (now == size)) [
      | inl reached ↦
          let here : last_window manager size (key ∷ after) ≡ some 0 = ground arith in
          let at_start : length before + 0 ≡ length before = omega arith in
          let found =
            rw at_start at (last_window-reverse_onto manager size before (key ∷ after) 0 here) in
          rw (reached, found, drop-reverse_onto before (key ∷ after)) refl
      | inr short' ↦
          let shorter : now < size = ground (arith, streak_le (manager key)) in
          rw short' (
            scan_window_lem manager size before (key ∷ after) shorter
              (ground (arith, no_run, shorter)))
    ]

-- With a positive window: the window lookup answers the end of the last run of a window's size
-- of hits, or the number of hits at the front of the keys where there is no such run; and it
-- gives no answer exactly if a key from that run's start on, or any key where there is none, is
-- deferred. Pending keys count as hits.
pub sliding_window_lookup_lem :
    (manager : ℕ → Found) (size : ℕ) (keys : List ℕ)
    → 0 < size
    → sliding_window_lookup manager size keys
      ≡ window_end manager size keys (last_window manager size keys)
unfolding sliding_window_lookup leading_hits last_window any_defers
sliding_window_lookup_lem manager size keys positive =
    rw (reverse_twice keys []) at
      (scan_window_lem manager size (reverse_onto keys []) [] positive refl)
