-- ===== src/AsyncLookup/Flush/RoundRobin.antt =====
-- The rounds of `_round_robin` keep each request's order (patches/async_lookup.bounded.py).
use deepseek_v4_flash_mi300x.Prelude.{
  ℕ, zero, suc, ◌+◌, ◌≤◌, ◌<◌, ◌≡◌, ◌⊎◌, inl, inr, refl, sym, ap, ◌∙◌, List, [], ◌∷◌, ◌++◌, take,
  drop, length-drop, take-append-drop, ◌==◌, if◌then◌else◌, arith,
}
use mathlib.Core.List.{append_assoc, append-nil}
use deepseek_v4_flash_mi300x.AsyncLookup.{Item}
use deepseek_v4_flash_mi300x.AsyncLookup.Flush.{round_robin, rounds}

abbrev pub concat {ℓ} : {A : Type ℓ} → List (List A) → List A
concat [] = []
concat (xs ∷ xss) = xs ++ concat xss

-- the items of one request, in order
unfoldable pub by_req : ℕ → List Item → List Item
by_req r [] = []
by_req r (item ∷ items) = let rest = by_req r items in if item.req == r then item ∷ rest else rest

pub by_req-append : (r : ℕ) (xs ys : List Item) → by_req r (xs ++ ys) ≡ by_req r xs ++ by_req r ys
unfolding by_req
by_req-append r [] ys = refl
by_req-append r (x ∷ xs) ys = ground (arith, by_req-append r xs ys)

concat-append : (xss yss : List (List Item)) → concat (xss ++ yss) ≡ concat xss ++ concat yss
concat-append [] yss = refl
concat-append (xs ∷ xss) yss = rw (concat-append xss yss, append_assoc)

append-eq-nil : (xs ys : List Item) → xs ++ ys ≡ [] → (xs ≡ []) × (ys ≡ [])
append-eq-nil [] ys h = (refl, h)
append-eq-nil (x ∷ xs) ys h = absurd (ground arith)

-- At most one of the lists has items of the request.
abbrev pub Single : ℕ → List (List Item) → Type 0
Single r [] = Unit {0}
Single r (c ∷ cs) = ((by_req r c ≡ []) × Single r cs) ⊎ (by_req r (concat cs) ≡ [])

Single-of_none : (r : ℕ) (cs : List (List Item)) → by_req r (concat cs) ≡ [] → Single r cs
Single-of_none r [] h = tt
Single-of_none r (c ∷ cs) h =
    let (here, there) =
      append-eq-nil (by_req r c) (by_req r (concat cs)) (sym (by_req-append r c (concat cs)) ∙ h) in
    inr there

Single-append_none :
    (r : ℕ) (cs : List (List Item)) (d : List Item)
    → by_req r d ≡ []
    → Single r cs
    → Single r (cs ++ d ∷ [])
unfolding by_req
Single-append_none r [] d h s = inl (h, tt)
Single-append_none r (c ∷ cs) d h (inl (here, rest)) = inl (here, Single-append_none r cs d h rest)
Single-append_none r (c ∷ cs) d h (inr rest) = inr (
    rw (concat-append cs (d ∷ []), by_req-append r (concat cs) (concat (d ∷ [])), rest)
      (rw (append-nil d) h))

Single-append_last :
    (r : ℕ) (cs : List (List Item)) (d : List Item)
    → by_req r (concat cs) ≡ []
    → Single r (cs ++ d ∷ [])
unfolding by_req
Single-append_last r [] d h = inr refl
Single-append_last r (c ∷ cs) d h =
    let (here, there) =
      append-eq-nil (by_req r c) (by_req r (concat cs)) (sym (by_req-append r c (concat cs)) ∙ h) in
    inl (here, Single-append_last r cs d there)

by_req-take-drop :
    (r n : ℕ) (c : List Item) → by_req r (take n c) ++ by_req r (drop n c) ≡ by_req r c
by_req-take-drop r n c =
    sym (by_req-append r (take n c) (drop n c)) ∙ ap (by_req r) (take-append-drop n c)

by_req-concat_last :
    (r : ℕ) (cs : List (List Item)) (d : List Item)
    → by_req r (concat (cs ++ d ∷ [])) ≡ by_req r (concat cs) ++ by_req r d
by_req-concat_last r cs d =
    rw (concat-append cs (d ∷ []), append-nil d) (by_req-append r (concat cs) d)

-- turning a list's rest to the end keeps each request's order
turn :
    (r size : ℕ) (c : List Item) (cs : List (List Item))
    → Single r (c ∷ cs)
    → Single r (cs ++ drop size c ∷ [])
      × (by_req r (take size c) ++ by_req r (concat (cs ++ drop size c ∷ []))
          ≡ by_req r (concat (c ∷ cs)))
turn r size c cs (inl (e, s)) =
    let d = drop size c in
    let (front, back) =
      append-eq-nil (by_req r (take size c)) (by_req r d) (by_req-take-drop r size c ∙ e) in
    (
      Single-append_none r cs d back s,
      rw (front, by_req-concat_last r cs d, back, append-nil, by_req-append r c (concat cs), e),
    )
turn r size c cs (inr e) =
    let d = drop size c in
    (
      Single-append_last r cs d e,
      rw (by_req-concat_last r cs d, e, by_req-append r c (concat cs), e, append-nil)
          (by_req-take-drop r size c),
    )

rounds-append : (cs ds : List (List Item)) → rounds (cs ++ ds) ≡ rounds cs + rounds ds
unfolding rounds
rounds-append [] ds = omega arith
rounds-append (c ∷ cs) ds = omega (arith, rounds-append cs ds)

-- With a positive chunk size the loop's fuel is enough, and no request's items move.
pub round_robin-by_req :
    (r fuel size : ℕ) (cs : List (List Item))
    → 0 < size
    → rounds cs ≤ fuel
    → Single r cs
    → by_req r (concat (round_robin fuel size cs)) ≡ by_req r (concat cs)
unfolding round_robin rounds
round_robin-by_req r zero size [] p h s = refl
round_robin-by_req r zero size (c ∷ cs) p h s = absurd (omega arith)
round_robin-by_req r (suc fuel) size [] p h s = refl
round_robin-by_req r (suc fuel) size ([] ∷ cs) p h (inl (e, s)) =
    round_robin-by_req r fuel size cs p (omega arith) s
round_robin-by_req r (suc fuel) size ([] ∷ cs) p h (inr e) =
    round_robin-by_req r fuel size cs p (omega arith) (Single-of_none r cs e)
round_robin-by_req r (suc fuel) size ((i ∷ is) ∷ cs) p h s =
    let c = i ∷ is in
    let d = drop size c in
    let (s', e) = turn r size c cs s in
    let less : rounds (cs ++ d ∷ []) ≤ fuel =
      omega (arith, rounds-append cs (d ∷ []), length-drop size c) in
    by_req-append r (take size c) (concat (round_robin fuel size (cs ++ d ∷ [])))
    ∙ (ap (◌++◌ (by_req r (take size c))) (round_robin-by_req r fuel size (cs ++ d ∷ []) p less s')
        ∙ e)
