-- ===== src/AsyncLookup/Flush/Order.antt =====
-- The chunks of a flush hold each item once, in each request's order, and are bounded.
use deepseek_v4_flash_mi300x.Prelude.{
  ℕ, zero, suc, ◌≤◌, ◌<◌, ◌≡◌, subst, inl, inr, refl, sym, ap, ◌∙◌, false, List, [], ◌∷◌, ◌++◌,
  length, length-take, ◌==◌, get_or, Bool-cases, All, arith,
}
use mathlib.Core.List.{append_assoc, append-nil}
use deepseek_v4_flash_mi300x.Prelude.Map.{Map, lookup, put, lookup-put}
use deepseek_v4_flash_mi300x.Prelude.Totals.{IsDict, put-IsDict}
use deepseek_v4_flash_mi300x.AsyncLookup.{Item}
use deepseek_v4_flash_mi300x.AsyncLookup.Flush.{group, values, round_robin, rounds, chunks_of}
use deepseek_v4_flash_mi300x.AsyncLookup.Flush.RoundRobin.{
  concat, by_req, by_req-append, Single, round_robin-by_req,
}

-- Each list of the grouping holds items of its own request.
abbrev Keyed : Map (List Item) → Type 0
Keyed [] = Unit {0}
Keyed ((j, c) ∷ m) = All (λ i. i.req ≡ j) c × Keyed m

All-snoc :
    (j : ℕ) (c : List Item) (i : Item)
    → All (λ i. i.req ≡ j) c
    → i.req ≡ j
    → All (λ i. i.req ≡ j) (c ++ i ∷ [])
All-snoc j [] i a e = (e, tt)
All-snoc j (x ∷ c) i a e = (a.0, All-snoc j c i a.1 e)

put-Keyed :
    (j : ℕ) (c : List Item) (m : Map (List Item))
    → All (λ i. i.req ≡ j) c
    → Keyed m
    → Keyed (put j c m)
unfolding put
put-Keyed j c [] a k = (a, tt)
put-Keyed j c ((i, d) ∷ m) a k = elim (Bool-cases (i == j)) [
  | inl same ↦
      rw same (subst (λ z. All (λ x. x.req ≡ z) c) (let e : j ≡ i = ground arith in e) a, k.1)
  | inr other ↦ rw other (k.0, put-Keyed j c m a k.1)
]

lookup-Keyed :
    (j : ℕ) (m : Map (List Item)) → Keyed m → All (λ i. i.req ≡ j) (get_or (lookup j m) [])
unfolding lookup
lookup-Keyed j [] k = tt
lookup-Keyed j ((i, d) ∷ m) k = elim (Bool-cases (i == j)) [
  | inl same ↦ rw same (subst (λ z. All (λ x. x.req ≡ z) d) (let e : i ≡ j = ground arith in e) k.0)
  | inr other ↦ rw other (lookup-Keyed j m k.1)
]

by_req-All : (r : ℕ) (c : List Item) → All (λ i. i.req ≡ r) c → by_req r c ≡ c
unfolding by_req
by_req-All r [] a = refl
by_req-All r (i ∷ c) a = ground (arith, by_req-All r c a.1)

by_req_other :
    (r j : ℕ) (c : List Item) → (j == r) ≡ false → All (λ i. i.req ≡ j) c → by_req r c ≡ []
unfolding by_req
by_req_other r j [] h a = refl
by_req_other r j (i ∷ c) h a = ground (arith, by_req_other r j c h a.1)

by_req-values :
    (r : ℕ) (m : Map (List Item))
    → IsDict m
    → Keyed m
    → by_req r (concat (values m)) ≡ get_or (lookup r m) []
unfolding lookup by_req
by_req-values r [] d k = refl
by_req-values r ((j, c) ∷ m) d k =
    let rest = by_req-values r m d.1 k.1 in
    by_req-append r c (concat (values m)) ∙ elim (Bool-cases (j == r)) [
      | inl same ↦
          let e : j ≡ r = ground arith in
          let none_left : by_req r (concat (values m)) ≡ [] = ground (arith, rest, d.0) in
          rw (same, none_left, append-nil)
            (by_req-All r c (subst (λ z. All (λ x. x.req ≡ z) c) e k.0))
      | inr other ↦ rw (other, by_req_other r j c other k.0) rest
    ]

values-Single : (r : ℕ) (m : Map (List Item)) → IsDict m → Keyed m → Single r (values m)
values-Single r [] d k = tt
values-Single r ((j, c) ∷ m) d k = elim (Bool-cases (j == r)) [
  | inl same ↦ inr (by_req-values r m d.1 k.1 ∙ ground (arith, d.0))
  | inr other ↦ inl (by_req_other r j c other k.0, values-Single r m d.1 k.1)
]

group_lem :
    (r : ℕ) (items : List Item) (m : Map (List Item))
    → IsDict m
    → Keyed m
    → IsDict (group items m)
      × Keyed (group items m)
      × (get_or (lookup r (group items m)) [] ≡ get_or (lookup r m) [] ++ by_req r items)
unfolding group by_req
group_lem r [] m d k = (d, k, sym (append-nil _))
group_lem r (i ∷ items) m d k =
    let old = get_or (lookup i.req m) [] in
    let m' = put i.req (old ++ i ∷ []) m in
    let (d', k', e) =
      group_lem r items m' (put-IsDict i.req (old ++ i ∷ []) m d) (
        put-Keyed i.req (old ++ i ∷ []) m (All-snoc i.req old i (lookup-Keyed i.req m k) refl) k) in
    (
      d',
      k',
      e ∙ elim (Bool-cases (i.req == r)) [
        | inl same ↦
            let q : i.req ≡ r = ground arith in
            rw (lookup-put i.req r (old ++ i ∷ []) m, same, append_assoc)
              (ap (λ z. get_or (lookup z m) [] ++ (i ∷ by_req r items)) q)
        | inr other ↦ rw (lookup-put i.req r (old ++ i ∷ []) m, other) refl
      ],
    )

-- With a positive chunk size, the chunks of a flush, put one after the other, hold of each
-- request the items that the step has of it, in the same order and as often.
pub chunks_of-by_req :
    (r size : ℕ) (pending : List Item)
    → 0 < size
    → by_req r (concat (chunks_of size pending)) ≡ by_req r pending
unfolding chunks_of lookup
chunks_of-by_req r size pending p =
    let (d, k, e) = group_lem r pending [] tt tt in
    let m = group pending [] in
    round_robin-by_req r (rounds (values m)) size (values m) p (omega arith) (values-Single r m d k)
    ∙ (by_req-values r m d k ∙ e)

-- With a positive chunk size, every chunk has an item, and none has more than the chunk size.
pub chunk_sizes :
    (fuel size : ℕ) (cs : List (List Item))
    → 0 < size
    → All (λ c. (0 < length c) × (length c ≤ size)) (round_robin fuel size cs)
unfolding round_robin
chunk_sizes zero size cs p = tt
chunk_sizes (suc fuel) size [] p = tt
chunk_sizes (suc fuel) size ([] ∷ cs) p = chunk_sizes fuel size cs p
chunk_sizes (suc fuel) size ((i ∷ is) ∷ cs) p =
    let n = length-take size (i ∷ is) in
    ((omega (arith, n), omega (arith, n)), chunk_sizes fuel size _ p)
