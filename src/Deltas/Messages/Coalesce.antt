-- ===== src/Deltas/Messages/Coalesce.antt =====
-- Merging the deltas of a message by their index (`_coalesce_tool_call_deltas`,
-- patches/parser-engine.dsml-orphan.py).
use mathlib.Core.List.{append_assoc, append-nil}
use deepseek_v4_flash_mi300x.Prelude.{
  ℕ, ◌≡◌, inl, inr, refl, ◌∙◌, sym, ap, Bool, true, false, not, ◌&&◌, ◌||◌, Option, none, some,
  List, [], ◌∷◌, ◌++◌, ◌==◌, if◌then◌else◌, Bool-cases, arith,
}
use deepseek_v4_flash_mi300x.Parser.{Text}
use deepseek_v4_flash_mi300x.Deltas.{DeltaToolCall}
use deepseek_v4_flash_mi300x.Deltas.Slots.{or_empty}
use deepseek_v4_flash_mi300x.Deltas.Messages.{or_else, join_arguments, merge_delta, coalesce}

abbrev pub delta_arguments : ℕ → DeltaToolCall → Text
delta_arguments i d = if d.index == i then or_empty d.arguments else []

abbrev pub delta_name : ℕ → DeltaToolCall → Option Text
delta_name i d = if d.index == i then d.name else none

-- what deltas say of a call: its arguments put together, and the first name
abbrev pub arguments_of : ℕ → List DeltaToolCall → Text
arguments_of i [] = []
arguments_of i (d ∷ ds) = delta_arguments i d ++ arguments_of i ds

abbrev pub name_of : ℕ → List DeltaToolCall → Option Text
name_of i [] = none
name_of i (d ∷ ds) = or_else (delta_name i d) (name_of i ds)

abbrev pub has_index : ℕ → List DeltaToolCall → Bool
has_index i [] = false
has_index i (d ∷ ds) = d.index == i || has_index i ds

-- no two deltas have the same index
abbrev pub are_distinct : List DeltaToolCall → Bool
are_distinct [] = true
are_distinct (d ∷ ds) = not (has_index d.index ds) && are_distinct ds

or_empty_joined : (a b : Option Text) → or_empty (join_arguments a b) ≡ or_empty a ++ or_empty b
or_empty_joined none none = refl
or_empty_joined none (some b) = refl
or_empty_joined (some a) none = sym (append-nil a)
or_empty_joined (some a) (some b) = refl

absent : (i : ℕ) (ds : List DeltaToolCall) → has_index i ds ≡ false → arguments_of i ds ≡ []
absent i [] h = refl
absent i (d ∷ ds) h = ground (arith, absent i ds)

absent_name : (i : ℕ) (ds : List DeltaToolCall) → has_index i ds ≡ false → name_of i ds ≡ none
absent_name i [] h = refl
absent_name i (d ∷ ds) h = ground (arith, absent_name i ds)

has_index-merge_delta :
    (i : ℕ) (merged : List DeltaToolCall) (d : DeltaToolCall)
    → has_index i (merge_delta merged d) ≡ (has_index i merged || d.index == i)
unfolding merge_delta
has_index-merge_delta i [] d = ground arith
has_index-merge_delta i (old ∷ merged) d = ground (arith, has_index-merge_delta i merged d)

are_distinct-merge_delta :
    (merged : List DeltaToolCall) (d : DeltaToolCall)
    → are_distinct merged ≡ true
    → are_distinct (merge_delta merged d) ≡ true
unfolding merge_delta
are_distinct-merge_delta [] d h = refl
are_distinct-merge_delta (old ∷ merged) d h =
    ground (arith, has_index-merge_delta old.index merged d, are_distinct-merge_delta merged d)

arguments_of-merge_delta :
    (i : ℕ) (merged : List DeltaToolCall) (d : DeltaToolCall)
    → are_distinct merged ≡ true
    → arguments_of i (merge_delta merged d) ≡ arguments_of i merged ++ delta_arguments i d
unfolding merge_delta
arguments_of-merge_delta i [] d h = append-nil (delta_arguments i d)
arguments_of-merge_delta i (old ∷ merged) d h = elim (Bool-cases (old.index == d.index)) [
  | inl same ↦ elim (Bool-cases (old.index == i)) [
    | inl here ↦
        let that : (d.index == i) ≡ true = ground arith in
        let alone : has_index i merged ≡ false = ground arith in
        rw (same, here, that, absent i merged alone)
          (append-nil (or_empty (join_arguments old.arguments d.arguments))
            ∙ or_empty_joined old.arguments d.arguments
            ∙ ap (λ x. x ++ or_empty d.arguments) (sym (append-nil (or_empty old.arguments))))
    | inr other ↦
        let that : (d.index == i) ≡ false = ground arith in
        rw (same, other, that) (sym (append-nil (arguments_of i merged)))
  ]
  | inr apart ↦
      rw (apart, arguments_of-merge_delta i merged d (ground arith))
        (sym (append_assoc (delta_arguments i old) (arguments_of i merged) (delta_arguments i d)))
]

or_else_assoc {ℓ} :
    {A : Type ℓ} → (a b c : Option A) → or_else (or_else a b) c ≡ or_else a (or_else b c)
or_else_assoc none b c = refl
or_else_assoc (some x) b c = refl

or_else-none {ℓ} : {A : Type ℓ} → (a : Option A) → or_else a none ≡ a
or_else-none none = refl
or_else-none (some x) = refl

name_of-merge_delta :
    (i : ℕ) (merged : List DeltaToolCall) (d : DeltaToolCall)
    → are_distinct merged ≡ true
    → name_of i (merge_delta merged d) ≡ or_else (name_of i merged) (delta_name i d)
unfolding merge_delta
name_of-merge_delta i [] d h = or_else-none (delta_name i d)
name_of-merge_delta i (old ∷ merged) d h = elim (Bool-cases (old.index == d.index)) [
  | inl same ↦ elim (Bool-cases (old.index == i)) [
    | inl here ↦
        let that : (d.index == i) ≡ true = ground arith in
        let alone : has_index i merged ≡ false = ground arith in
        rw (same, here, that, absent_name i merged alone)
          (or_else_assoc old.name d.name none
            ∙ ap (or_else old.name) (or_else-none d.name)
            ∙ ap (λ x. or_else x d.name) (sym (or_else-none old.name)))
    | inr other ↦
        let that : (d.index == i) ≡ false = ground arith in
        rw (same, other, that) (sym (or_else-none (name_of i merged)))
  ]
  | inr apart ↦
      rw (apart, name_of-merge_delta i merged d (ground arith))
        (sym (or_else_assoc (delta_name i old) (name_of i merged) (delta_name i d)))
]

coalesce_merged :
    (i : ℕ) (merged ds : List DeltaToolCall)
    → are_distinct merged ≡ true
    → (are_distinct (coalesce merged ds) ≡ true)
      × (arguments_of i (coalesce merged ds) ≡ arguments_of i merged ++ arguments_of i ds)
      × (name_of i (coalesce merged ds) ≡ or_else (name_of i merged) (name_of i ds))
unfolding coalesce
coalesce_merged i merged [] h =
    (h, sym (append-nil (arguments_of i merged)), sym (or_else-none (name_of i merged)))
coalesce_merged i merged (d ∷ ds) h =
    let (apart, args, name) =
      coalesce_merged i (merge_delta merged d) ds (are_distinct-merge_delta merged d h) in
    (
      apart,
      args
          ∙ ap (λ x. x ++ arguments_of i ds) (arguments_of-merge_delta i merged d h)
          ∙ append_assoc (arguments_of i merged) (delta_arguments i d) (arguments_of i ds),
      name
          ∙ ap (λ x. or_else x (name_of i ds)) (name_of-merge_delta i merged d h)
          ∙ or_else_assoc (name_of i merged) (delta_name i d) (name_of i ds),
    )

-- Merged deltas have different indices, and say of each index what the deltas said: the
-- arguments of the index put together in their order, and its first name.
pub coalesce_lem :
    (i : ℕ) (ds : List DeltaToolCall)
    → (are_distinct (coalesce [] ds) ≡ true)
      × (arguments_of i (coalesce [] ds) ≡ arguments_of i ds)
      × (name_of i (coalesce [] ds) ≡ name_of i ds)
coalesce_lem i ds = coalesce_merged i [] ds refl
