-- ===== src/Deltas/Slots/Assembled.antt =====
-- What a client puts together from the deltas of one call
-- (patches/parser-engine.dsml-orphan.py).
use mathlib.Core.List.{append_assoc, append-nil}
use deepseek_v4_flash_mi300x.Prelude.{
  ℕ, ◌≡◌, ◌⊎◌, inl, inr, refl, ◌∙◌, sym, ap, Bool, true, false, not, ◌||◌, Option, none, some, List,
  [], ◌∷◌, ◌++◌, is_empty, length, drop, Bool-cases, arith,
}
use deepseek_v4_flash_mi300x.Parser.{Text, starts_with}
use deepseek_v4_flash_mi300x.Deltas.{ToolCallSlot, Tools, DeltaToolCall}
use deepseek_v4_flash_mi300x.Deltas.Slots.{
  Handled, extend_streamed, stream_converted, compute_with, compute_arg_delta, extend_final,
  flush_converted, flush_with, flush_arg_converter, is_disjoint, accepts, name_slot,
  emit_name_delta, deltas_of, append_args, handle_arg_chunk, or_empty,
}

-- the arguments of the deltas, put together
unfoldable pub assembled : List DeltaToolCall → Text
assembled [] = []
assembled (d ∷ deltas) = or_empty d.arguments ++ assembled deltas

pub assembled-append :
    (xs ys : List DeltaToolCall) → assembled (xs ++ ys) ≡ assembled xs ++ assembled ys
unfolding assembled
assembled-append [] ys = refl
assembled-append (x ∷ xs) ys = rw (assembled-append xs ys, append_assoc) refl

pub assembled-deltas_of : (idx : ℕ) (o : Option Text) → assembled (deltas_of idx o) ≡ or_empty o
unfolding assembled
assembled-deltas_of idx none = refl
assembled-deltas_of idx (some []) = refl
assembled-deltas_of idx (some (c ∷ text)) = append-nil (c ∷ text)

pub starts_with-drop :
    (name t : Text) → starts_with name t ≡ true → t ++ drop (length t) name ≡ name
unfolding starts_with
starts_with-drop name [] h = refl
starts_with-drop [] (d ∷ ds) h = ground arith
starts_with-drop (c ∷ cs) (d ∷ ds) h = ground (arith, starts_with-drop cs ds)

-- the name's state is kept, and what is sent is added to what has been streamed
abbrev pub Extends : ToolCallSlot → ToolCallSlot × Option Text → Type 0
Extends slot (slot', o) =
    (slot'.name_sent ≡ slot.name_sent)
    × (slot'.name ≡ slot.name)
    × (slot'.args ≡ slot.args)
    × (slot'.streamed_json ≡ slot.streamed_json ++ or_empty o)

extend_streamed-Extends :
    (slot : ToolCallSlot) (safe : Text) → Extends slot (extend_streamed slot safe)
unfolding extend_streamed
extend_streamed-Extends slot safe = (
  ground arith,
  ground arith,
  ground arith,
  ground (arith, starts_with-drop safe slot.streamed_json, append-nil slot.streamed_json),
)

stream_converted-Extends :
    (t : Tools) (slot : ToolCallSlot) (o : Option Text) → Extends slot (stream_converted t slot o)
unfolding stream_converted
stream_converted-Extends t slot none = (refl, refl, refl, sym (append-nil _))
stream_converted-Extends t slot (some []) = (refl, refl, refl, sym (append-nil _))
stream_converted-Extends t slot (some (c ∷ json)) = extend_streamed-Extends slot _

compute-Extends :
    (t : Tools) (f : Text → Bool → Option Text) (slot : ToolCallSlot) (raw : Text)
    → Extends slot (compute_with t (some f) slot raw)
unfolding compute_with
compute-Extends t f slot raw =
    elim (Bool-cases (not t.stream_arg_deltas || is_disjoint t.is_structural raw)) [
      | inl nothing ↦ rw nothing (refl, refl, refl, sym (append-nil _))
      | inr goes_on ↦ rw goes_on (stream_converted-Extends t slot (f slot.args true))
    ]

extend_final-Extends : (slot : ToolCallSlot) (json : Text) → Extends slot (extend_final slot json)
unfolding extend_final
extend_final-Extends slot json = (
  ground arith,
  ground arith,
  ground arith,
  ground (arith, starts_with-drop json slot.streamed_json, append-nil slot.streamed_json),
)

flush_converted-Extends :
    (t : Tools) (slot : ToolCallSlot) (o : Option Text) → Extends slot (flush_converted t slot o)
unfolding flush_converted
flush_converted-Extends t slot none = (refl, refl, refl, sym (append-nil _))
flush_converted-Extends t slot (some json) = extend_final-Extends slot _

-- What the client has is what was streamed, or the name has not been sent and it has nothing.
pub record Streamed (slot : ToolCallSlot) (client : Text) : Type 0 where
  pub sent : slot.name_sent ≡ true → slot.streamed_json ≡ client
  pub unsent : slot.name_sent ≡ false → slot.streamed_json ≡ []
  pub nothing : slot.name_sent ≡ false → client ≡ []

abbrev pub Follows : Text → Handled → Type 0
Follows client (slot, cnt, deltas) = Streamed slot (client ++ assembled deltas)

pub emit_name_delta-Follows :
    (t : Tools) (idx cnt : ℕ) (slot : ToolCallSlot) (o : Option Text) (client : Text)
    → slot.name_sent ≡ false
    → Streamed slot client
    → Follows client (emit_name_delta t idx slot cnt o)
unfolding emit_name_delta name_slot assembled
emit_name_delta-Follows t idx cnt slot none client u h = rw (append-nil client) h
emit_name_delta-Follows t idx cnt slot (some name) client u h = elim (Bool-cases (accepts t name)) [
  | inl ok ↦
      rw (ok, append-nil client)
        (record { sent = λ s. h.unsent u ∙ sym (h.nothing u); unsent = λ s. cc; nothing = λ s. cc })
  | inr refused ↦ rw (refused, append-nil client) h
]

-- with the arguments appended only
pub grown-Streamed :
    (slot : ToolCallSlot) (value client : Text)
    → Streamed slot client
    → Streamed (append_args slot value) client
unfolding append_args
grown-Streamed slot value client h = record {
  sent = h.sent;
  unsent = h.unsent;
  nothing = h.nothing;
}

pub extended-Follows :
    (idx cnt : ℕ) (slot slot' : ToolCallSlot) (o : Option Text) (client : Text)
    → slot.name_sent ≡ true
    → Extends slot (slot', o)
    → Streamed slot client
    → Follows client (slot', cnt, deltas_of idx o)
extended-Follows idx cnt slot slot' o client s (same, name_e, args_e, more) h =
    rw (assembled-deltas_of idx o) (record {
      sent = λ s'. more ∙ ap (λ u. u ++ or_empty o) (h.sent s);
      unsent = λ u. cc;
      nothing = λ u. cc;
    })

compute_of :
    (t : Tools) (f : Text → Bool → Option Text) (o : Option (Text → Bool → Option Text))
    (slot : ToolCallSlot) (raw : Text)
    → o ≡ some f
    → Extends slot (compute_with t o slot raw)
compute_of t f o slot raw e = rw e (compute-Extends t f slot raw)

flush_of :
    (t : Tools) (f : Text → Bool → Option Text) (o : Option (Text → Bool → Option Text))
    (slot : ToolCallSlot)
    → o ≡ some f
    → Extends slot (flush_with t o slot)
unfolding flush_with
flush_of t f o slot e = rw e (flush_converted-Extends t slot (f slot.args false))

module _ (t : Tools) (idx : ℕ) where
  pub chunk_sent :
      (cnt : ℕ) (value : Text) (slot : ToolCallSlot)
      → slot.name_sent ≡ true
      → is_empty value ≡ false
      → handle_arg_chunk t idx value slot cnt ≡ (
        (compute_arg_delta t (append_args slot value) value).0,
        cnt,
        deltas_of idx (compute_arg_delta t (append_args slot value) value).1,
      )
  unfolding handle_arg_chunk
  chunk_sent cnt value slot s full = ground arith

  pub chunk_nothing :
      (cnt : ℕ) (value : Text) (slot : ToolCallSlot)
      → slot.name_sent ≡ true ⊎ is_empty slot.name ≡ true
      → is_empty value ≡ true
      → handle_arg_chunk t idx value slot cnt ≡ (append_args slot value, cnt, [])
  unfolding handle_arg_chunk
  chunk_nothing cnt value slot s empty = ground arith

  pub grown_sent :
      (slot : ToolCallSlot) (value : Text) → (append_args slot value).name_sent ≡ slot.name_sent
  unfolding append_args
  grown_sent slot value = refl

  pub delta-Extends :
      (f : Text → Bool → Option Text)
      → t.arg_converter ≡ some f
      → (slot : ToolCallSlot) (raw : Text) → Extends slot (compute_arg_delta t slot raw)
  unfolding compute_arg_delta
  delta-Extends f conv slot raw = compute_of t f t.arg_converter slot raw conv

  pub flush-Extends :
      (f : Text → Bool → Option Text)
      → t.arg_converter ≡ some f
      → (slot : ToolCallSlot) → Extends slot (flush_arg_converter t slot)
  unfolding flush_arg_converter
  flush-Extends f conv slot = flush_of t f t.arg_converter slot conv

  pub chunk_named :
      (cnt : ℕ) (value : Text) (slot : ToolCallSlot)
      → slot.name_sent ≡ false
      → is_empty slot.name ≡ false
      → handle_arg_chunk t idx value slot cnt
        ≡ emit_name_delta t idx (append_args slot value) cnt (some slot.name)
  unfolding handle_arg_chunk
  chunk_named cnt value slot u n = ground arith

  chunk_searched :
      (cnt : ℕ) (value : Text) (slot : ToolCallSlot)
      → slot.name_sent ≡ false
      → is_empty slot.name ≡ true
      → is_empty value ≡ false
      → handle_arg_chunk t idx value slot cnt
        ≡ emit_name_delta t idx
            (append_args slot value)
            cnt
            (t.search_name (append_args slot value).args)
  unfolding handle_arg_chunk
  chunk_searched cnt value slot u n full = ground arith

  module _ (f : Text → Bool → Option Text) (conv : t.arg_converter ≡ some f) where
    pub chunk-Follows :
        (cnt : ℕ) (value : Text) (slot : ToolCallSlot) (client : Text)
        → Streamed slot client
        → Follows client (handle_arg_chunk t idx value slot cnt)
    unfolding assembled
    chunk-Follows cnt value slot client h =
        let grown = append_args slot value in
        let g = grown-Streamed slot value client h in
        elim (Bool-cases slot.name_sent) [
          | inl s ↦ elim (Bool-cases (is_empty value)) [
            | inl empty ↦ rw (chunk_nothing cnt value slot (inl s) empty, append-nil client) g
            | inr full ↦ rw (chunk_sent cnt value slot s full) (
                extended-Follows idx cnt grown _ _ client (grown_sent slot value ∙ s)
                  (delta-Extends f conv grown value) g)
          ]
          | inr u ↦ elim (Bool-cases (is_empty slot.name)) [
            | inr n ↦ rw (chunk_named cnt value slot u n) (
                emit_name_delta-Follows t idx cnt grown (some slot.name) client
                  (grown_sent slot value ∙ u) g)
            | inl n ↦ elim (Bool-cases (is_empty value)) [
              | inl empty ↦ rw (chunk_nothing cnt value slot (inr n) empty, append-nil client) g
              | inr full ↦ rw (chunk_searched cnt value slot u n full) (
                  emit_name_delta-Follows t idx cnt grown (t.search_name grown.args) client
                    (grown_sent slot value ∙ u) g)
            ]
          ]
        ]
