-- ===== src/Deltas/Reasoning.antt =====
-- Where reasoning ends in a list of token ids (`count_reasoning_tokens`, `is_reasoning_end`,
-- `extract_content_ids`, patches/parser-engine.dsml-orphan.py).
use deepseek_v4_flash_mi300x.Prelude.{
  ℕ, ◌+◌, ◌-◌, ◌≡◌, ◌⊎◌, inl, inr, refl, ◌∙◌, ap, Bool, true, false, not, ◌&&◌, ◌||◌, Option, none,
  some, List, [], ◌∷◌, ◌++◌, is_empty, length, ltb, ◌==◌, if◌then◌else◌, mem, Bool-cases, arith,
}

-- what follows the last end, which the scan from the back meets first
unfoldable pub after_last : ℕ → List ℕ → Option (List ℕ)
after_last end [] = none
after_last end (id ∷ ids) = elim (after_last end ids) [
  | some rest ↦ some rest
  | none ↦ if id == end then some ids else none
]

-- `extract_content_ids`
unfoldable pub extract_content_ids : Option ℕ → List ℕ → List ℕ
extract_content_ids none ids = ids
extract_content_ids (some end) ids = elim (after_last end ids) [ some rest ↦ rest | none ↦ ids ]

abbrev pub is_id : Option ℕ → ℕ → Bool
is_id none id = false
is_id (some wanted) id = id == wanted

-- whether the scan from the back meets an end, or a start before that
unfoldable pub scan_back : Option ℕ → ℕ → List ℕ → Option Bool
scan_back start end [] = none
scan_back start end (id ∷ ids) = elim (scan_back start end ids) [
  | some ended ↦ some ended
  | none ↦ if id == end then some true else if is_id start id then some false else none
]

-- `is_reasoning_end`, with whether the initial state is reasoning, and what the deltas have set
unfoldable pub is_reasoning_end : Option ℕ → Option ℕ → Bool → Bool → List ℕ → Bool
is_reasoning_end start none in_reasoning reasoning_ended ids = reasoning_ended
is_reasoning_end start (some end) in_reasoning reasoning_ended ids =
    if is_empty ids
    then not in_reasoning
    else elim (scan_back start end ids) [ some ended ↦ ended | none ↦ false ]

unfoldable pub count_from : ℕ → ℕ → ℕ → ℕ → List ℕ → ℕ
count_from start end depth count [] = count
count_from start end depth count (id ∷ ids) =
    if id == start
    then count_from start end (depth + 1) count ids
    else if id == end
    then count_from start end (depth - 1) count ids
    else count_from start end depth (if ltb 0 depth then count + 1 else count) ids

-- `count_reasoning_tokens`
unfoldable pub count_reasoning_tokens : Option ℕ → Option ℕ → List ℕ → ℕ
count_reasoning_tokens none end ids = 0
count_reasoning_tokens (some start) none ids = 0
count_reasoning_tokens (some start) (some end) ids =
    count_from start end (if not (mem start ids) && mem end ids then 1 else 0) 0 ids

scan_back-after_last :
    (start end : ℕ) (ids : List ℕ)
    → (after_last end ids ≡ none)
        × (mem end ids ≡ false)
        × (scan_back (some start) end ids ≡ (if mem start ids then some false else none))
      ⊎ ((rest : List ℕ) × (after_last end ids ≡ some rest)
          × (mem end ids ≡ true)
          × (scan_back (some start) end ids ≡ some (not (mem start rest))))
unfolding after_last scan_back mem
scan_back-after_last start end [] = inl (refl, refl, refl)
scan_back-after_last start end (id ∷ ids) = elim (scan_back-after_last start end ids) [
  | inl (after_e, absent_e, scan_e) ↦ elim (Bool-cases (id == end)) [
    | inl here ↦ inr (ids, ground arith, ground arith, ground arith)
    | inr other ↦ inl (ground arith, ground arith, ground arith)
  ]
  | inr (rest, after_e, there_e, scan_e) ↦ inr (rest, ground arith, ground arith, ground arith)
]

-- For ids that are not empty, with both markers: reasoning has ended exactly if there is an end and
-- no start in the content that follows the last one.
pub is_reasoning_end_lem :
    (start end : ℕ) (in_reasoning reasoning_ended : Bool) (ids : List ℕ)
    → is_empty ids ≡ false
    → is_reasoning_end (some start) (some end) in_reasoning reasoning_ended ids
      ≡ (mem end ids && not (mem start (extract_content_ids (some end) ids)))
unfolding is_reasoning_end extract_content_ids
is_reasoning_end_lem start end in_reasoning reasoning_ended ids h =
    elim (scan_back-after_last start end ids) [
      | inl (after_e, absent_e, scan_e) ↦ ground arith
      | inr (rest, after_e, there_e, scan_e) ↦ ground arith
    ]

-- no markers
abbrev pub is_plain : ℕ → ℕ → List ℕ → Bool
is_plain start end ids = not (mem start ids) && not (mem end ids)

count_plain :
    (start end depth count : ℕ) (ids rest : List ℕ)
    → is_plain start end ids ≡ true
    → count_from start end depth count (ids ++ rest)
      ≡ count_from start end depth (count + (if ltb 0 depth then length ids else 0)) rest
unfolding count_from mem
count_plain start end depth count [] rest h =
    ap (λ c. count_from start end depth c rest) (ground arith)
count_plain start end depth count (id ∷ ids) rest h =
    let later = if ltb 0 depth then count + 1 else count in
    let no_start : (id == start) ≡ false = ground arith in
    let no_end : (id == end) ≡ false = ground arith in
    rw (no_start, no_end)
      (count_plain start end depth later ids rest (ground arith)
        ∙ ap (λ c. count_from start end depth c rest) (ground arith))

count_outside :
    (start end count : ℕ) (ids : List ℕ)
    → is_plain start end ids ≡ true
    → count_from start end 0 count ids ≡ count
unfolding count_from mem
count_outside start end count [] h = refl
count_outside start end count (id ∷ ids) h =
    let no_start : (id == start) ≡ false = ground arith in
    let no_end : (id == end) ≡ false = ground arith in
    rw (no_start, no_end) (count_outside start end count ids (ground arith))

mem-append : (a : ℕ) (xs ys : List ℕ) → mem a (xs ++ ys) ≡ (mem a xs || mem a ys)
unfolding mem
mem-append a [] ys = refl
mem-append a (x ∷ xs) ys = ground (arith, mem-append a xs ys)

after_last_here :
    (end : ℕ) (rest : List ℕ) → mem end rest ≡ false → after_last end (end ∷ rest) ≡ some rest
unfolding after_last
after_last_here end rest h = elim (scan_back-after_last end end rest) [
  | inl (after_e, absent_e, scan_e) ↦ ground arith
  | inr (more, after_e, there_e, scan_e) ↦ ground arith
]

after_last-append :
    (end : ℕ) (ids more rest : List ℕ)
    → after_last end more ≡ some rest
    → after_last end (ids ++ more) ≡ some rest
unfolding after_last
after_last-append end [] more rest h = h
after_last-append end (id ∷ ids) more rest h =
    rw (after_last-append end ids more rest h, after_last) refl

-- the tokens of reasoning, from the depth that its first token has
count_section :
    (start end : ℕ) (ids rest : List ℕ)
    → (end == start) ≡ false
    → is_plain start end ids ≡ true
    → is_plain start end rest ≡ true
    → count_from start end 1 0 (ids ++ end ∷ rest) ≡ length ids
unfolding count_from
count_section start end ids rest apart h k =
    count_plain start end 1 0 ids (end ∷ rest) h
    ∙ (let same : (end == end) ≡ true = ground arith in
        rw (apart, same) (count_outside start end (0 + length ids) rest k ∙ omega arith))

-- a list whose last marker is an end, with those ids after it
ends_reasoning :
    (start end : ℕ) (in_reasoning reasoning_ended : Bool) (ids rest : List ℕ)
    → after_last end ids ≡ some rest
    → mem start rest ≡ false
    → (is_reasoning_end (some start) (some end) in_reasoning reasoning_ended ids ≡ true)
      × (extract_content_ids (some end) ids ≡ rest)
unfolding is_reasoning_end extract_content_ids after_last
ends_reasoning start end in_reasoning reasoning_ended [] rest h k = ground arith
ends_reasoning start end in_reasoning reasoning_ended (id ∷ ids) rest h k =
    elim (scan_back-after_last start end (id ∷ ids)) [
      | inl (after_e, absent_e, scan_e) ↦ ground arith
      | inr (more, after_e, there_e, scan_e) ↦ ground arith
    ]

-- With different markers, for ids with one end of reasoning and one start before it, or no
-- start: the ids counted as reasoning are those from the start, or from the front, to the end,
-- reasoning has ended, and the content is what follows.
pub reasoning_sections :
    (start end : ℕ) (before ids rest : List ℕ) (in_reasoning reasoning_ended : Bool)
    → (end == start) ≡ false
    → is_plain start end before ≡ true
    → is_plain start end ids ≡ true
    → is_plain start end rest ≡ true
    → let unopened = ids ++ end ∷ rest in
      let opened = before ++ start ∷ unopened in
      (count_reasoning_tokens (some start) (some end) opened ≡ length ids)
      × (count_reasoning_tokens (some start) (some end) unopened ≡ length ids)
      × ((is_reasoning_end (some start) (some end) in_reasoning reasoning_ended opened ≡ true)
          × (extract_content_ids (some end) opened ≡ rest))
      × ((is_reasoning_end (some start) (some end) in_reasoning reasoning_ended unopened ≡ true)
          × (extract_content_ids (some end) unopened ≡ rest))
unfolding count_reasoning_tokens count_from extract_content_ids mem
reasoning_sections start end before ids rest in_reasoning reasoning_ended apart plain_before
      plain_ids plain_rest =
    let here : (start == start) ≡ true = ground arith in
    let marked : List ℕ = start ∷ (ids ++ end ∷ rest) in
    let opens : mem start (before ++ marked) ≡ true =
      ground (arith, mem-append start before marked) in
    let unopened : mem start (ids ++ end ∷ rest) ≡ false =
      ground (arith, mem-append start ids (end ∷ rest)) in
    let closes : mem end (ids ++ end ∷ rest) ≡ true =
      ground (arith, mem-append end ids (end ∷ rest)) in
    let section = count_section start end ids rest apart plain_ids plain_rest in
    let last =
      after_last-append end ids (end ∷ rest) rest (after_last_here end rest (ground arith)) in
    let no_start : mem start rest ≡ false = ground arith in
    (
      rw opens (count_plain start end 0 0 before marked plain_before ∙ rw here section),
      rw (unopened, closes) section,
      ends_reasoning start end in_reasoning reasoning_ended (before ++ marked) rest
          (after_last-append end before marked rest
            (after_last-append end (start ∷ []) (ids ++ end ∷ rest) rest last))
          no_start,
      ends_reasoning start end in_reasoning reasoning_ended (ids ++ end ∷ rest) rest last no_start,
    )
