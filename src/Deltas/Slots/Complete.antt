-- ===== src/Deltas/Slots/Complete.antt =====
-- The arguments of a whole call (patches/parser-engine.dsml-orphan.py).
use mathlib.Core.List.{append_assoc, append-nil}
use deepseek_v4_flash_mi300x.Prelude.{
  ℕ, ◌≡◌, ◌≤◌, inl, inr, refl, ◌∙◌, sym, ap, Bool, true, false, Option, some, List, [], ◌∷◌, ◌++◌,
  is_empty, length, if◌then◌else◌, Bool-cases, arith,
}
use deepseek_v4_flash_mi300x.Parser.{Text, starts_with, join}
use deepseek_v4_flash_mi300x.Deltas.{ToolCallSlot, new_slot, Tools}
use deepseek_v4_flash_mi300x.Deltas.Slots.{
  Handled, extend_final, flush_converted, flush_with, flush_arg_converter, accepts, name_slot,
  emit_name_delta, deltas_of, append_args, handle_arg_chunk, or_empty, end_unnamed, handle_tool_end,
}
use deepseek_v4_flash_mi300x.Deltas.Slots.Assembled.{
  assembled, assembled-append, assembled-deltas_of, Streamed, delta-Extends, flush-Extends,
  chunk_named, chunk_sent, chunk_nothing, chunk-Follows,
}

-- a call's argument chunks, one after the other
unfoldable pub handle_chunks : Tools → ℕ → ToolCallSlot → ℕ → List Text → Handled
handle_chunks t idx slot cnt [] = (slot, cnt, [])
handle_chunks t idx slot cnt (value ∷ values) =
    let (slot', cnt', deltas) = handle_arg_chunk t idx value slot cnt in
    let (slot'', cnt'', rest) = handle_chunks t idx slot' cnt' values in
    (slot'', cnt'', deltas ++ rest)

-- the final JSON of a call with that name
abbrev pub final_json : Tools → Text → Text → Text
final_json t name json = if is_empty json then json else t.fix_arg_types json name

-- the slot of a call with that name, after those arguments, with what the client has
record Live (slot : ToolCallSlot) (name args client : Text) : Type 0 where
  named : slot.name ≡ name
  grown : slot.args ≡ args
  streamed : Streamed slot client

starts_with_whole : (name t : Text) → starts_with name t ≡ true → length name ≤ length t → t ≡ name
unfolding starts_with
starts_with_whole [] [] h l = refl
starts_with_whole (c ∷ cs) [] h l = absurd (omega arith)
starts_with_whole [] (d ∷ ds) h l = ground arith
starts_with_whole (c ∷ cs) (d ∷ ds) h l = ground (arith, starts_with_whole cs ds)

-- the final JSON goes on from what has been streamed
extend_final_whole :
    (slot : ToolCallSlot) (json : Text)
    → starts_with json slot.streamed_json ≡ true
    → (extend_final slot json).0.streamed_json ≡ json
unfolding extend_final
extend_final_whole slot json h = ground (arith, starts_with_whole json slot.streamed_json h)

named_keeps :
    (t : Tools) (idx cnt : ℕ) (slot : ToolCallSlot)
    → let slot' = (emit_name_delta t idx slot cnt (some slot.name)).0 in
      (slot'.name ≡ slot.name) × (slot'.args ≡ slot.args)
unfolding emit_name_delta name_slot
named_keeps t idx cnt slot = (ground arith, ground arith)

flush_converts :
    (t : Tools) (f : Text → Bool → Option Text) (o : Option (Text → Bool → Option Text))
    (slot : ToolCallSlot) (json : Text)
    → o ≡ some f
    → f slot.args false ≡ some json
    → flush_with t o slot ≡ extend_final slot (final_json t slot.name json)
unfolding flush_with flush_converted
flush_converts t f o slot json e j = rw (e, j) refl

module _ (t : Tools) (idx : ℕ) where
  chunk_keeps :
      (f : Text → Bool → Option Text)
      → t.arg_converter ≡ some f
      → (cnt : ℕ) (value : Text) (slot : ToolCallSlot) → is_empty slot.name ≡ false
      → let slot' = (handle_arg_chunk t idx value slot cnt).0 in
        (slot'.name ≡ slot.name) × (slot'.args ≡ slot.args ++ value)
  unfolding append_args
  chunk_keeps f conv cnt value slot n = elim (Bool-cases slot.name_sent) [
    | inr u ↦
        rw (chunk_named t idx cnt value slot u n) (named_keeps t idx cnt (append_args slot value))
    | inl s ↦ elim (Bool-cases (is_empty value)) [
      | inl empty ↦ rw (chunk_nothing t idx cnt value slot (inl s) empty) (refl, refl)
      | inr full ↦
          let (same, name_e, args_e, more) =
            delta-Extends t idx f conv (append_args slot value) value in
          rw (chunk_sent t idx cnt value slot s full) (name_e, args_e)
    ]
  ]

  end_sent :
      (slot : ToolCallSlot) (cnt : ℕ)
      → slot.name_sent ≡ true
      → handle_tool_end t idx slot cnt
        ≡ ((flush_arg_converter t slot).0, cnt, deltas_of idx (flush_arg_converter t slot).1)
  unfolding handle_tool_end
  end_sent slot cnt s = ground arith

  end_unsent :
      (slot : ToolCallSlot) (cnt : ℕ)
      → slot.name_sent ≡ false
      → handle_tool_end t idx slot cnt
        ≡ end_unnamed t idx (flush_arg_converter t slot).0 cnt (flush_arg_converter t slot).1
  unfolding handle_tool_end
  end_unsent slot cnt u = ground arith

  unnamed_assembled :
      (slot : ToolCallSlot) (cnt : ℕ) (o : Option Text)
      → accepts t slot.name ≡ true
      → let (slot', cnt', deltas) = end_unnamed t idx slot cnt o in
        (assembled deltas ≡ or_empty o) × (slot'.name_sent ≡ true)
  unfolding end_unnamed name_slot assembled
  unnamed_assembled slot cnt o ok = (ground (arith, append-nil (or_empty o)), ground arith)

module _ (t : Tools) (f : Text → Bool → Option Text) (conv : t.arg_converter ≡ some f) (idx : ℕ)
    (name : Text) (ok : accepts t name ≡ true) where
  name_nonempty : (slot : ToolCallSlot) → slot.name ≡ name → is_empty slot.name ≡ false
  name_nonempty slot e = ground (arith, ok)

  chunk-Live :
      (cnt : ℕ) (value args client : Text) (slot : ToolCallSlot)
      → Live slot name args client
      → let (slot', cnt', deltas) = handle_arg_chunk t idx value slot cnt in
        Live slot' name (args ++ value) (client ++ assembled deltas)
  chunk-Live cnt value args client slot v =
      let (name_e, args_e) = chunk_keeps t idx f conv cnt value slot (name_nonempty slot v.named) in
      record {
        named = name_e ∙ v.named;
        grown = args_e ∙ ap (λ a. a ++ value) v.grown;
        streamed = chunk-Follows t idx f conv cnt value slot client v.streamed;
      }

  chunks-Live :
      (cnt : ℕ) (values : List Text) (args client : Text) (slot : ToolCallSlot)
      → Live slot name args client
      → let (slot', cnt', deltas) = handle_chunks t idx slot cnt values in
        Live slot' name (args ++ join values) (client ++ assembled deltas)
  unfolding handle_chunks join assembled
  chunks-Live cnt [] args client slot v = rw (append-nil args, append-nil client) v
  chunks-Live cnt (value ∷ values) args client slot v =
      let (slot', cnt', deltas) = handle_arg_chunk t idx value slot cnt in
      let (slot'', cnt'', rest) = handle_chunks t idx slot' cnt' values in
      rw
        (
          ← append_assoc args value (join values),
          assembled-append deltas rest,
          ← append_assoc client (assembled deltas) (assembled rest),
        )
        (chunks-Live cnt' values (args ++ value) (client ++ assembled deltas) slot'
          (chunk-Live cnt value args client slot v))

  final_whole :
      (args client json : Text) (slot : ToolCallSlot)
      → Live slot name args client
      → f args false ≡ some json
      → starts_with (final_json t name json) client ≡ true
      → slot.streamed_json ≡ client
      → (flush_arg_converter t slot).0.streamed_json ≡ final_json t name json
  unfolding flush_arg_converter
  final_whole args client json slot v j h same =
      let final = final_json t name json in
      let converted =
        flush_converts t f t.arg_converter slot json conv (ap (λ a. f a false) v.grown ∙ j) in
      ap (λ m. m.0.streamed_json)
        (converted ∙ ap (λ n. extend_final slot (final_json t n json)) v.named)
      ∙ extend_final_whole slot final (ap (λ c. starts_with final c) same ∙ h)

  Streamed-client :
      (slot : ToolCallSlot) (client : Text) → Streamed slot client → slot.streamed_json ≡ client
  Streamed-client slot client h = elim (Bool-cases slot.name_sent) [
    | inl s ↦ h.sent s
    | inr u ↦ h.unsent u ∙ sym (h.nothing u)
  ]

  end-Live :
      (cnt : ℕ) (args client json : Text) (slot : ToolCallSlot)
      → Live slot name args client
      → f args false ≡ some json
      → starts_with (final_json t name json) client ≡ true
      → let (slot', cnt', deltas) = handle_tool_end t idx slot cnt in
        (client ++ assembled deltas ≡ final_json t name json) × (slot'.name_sent ≡ true)
  end-Live cnt args client json slot v j h =
      let same = Streamed-client slot client v.streamed in
      let (sent_e, name_e, args_e, more) = flush-Extends t idx f conv slot in
      let o = (flush_arg_converter t slot).1 in
      let whole : client ++ or_empty o ≡ final_json t name json =
        ap (λ a. a ++ or_empty o) (sym same)
        ∙ (sym more ∙ final_whole args client json slot v j h same) in
      elim (Bool-cases slot.name_sent) [
        | inl s ↦ rw (end_sent t idx slot cnt s, assembled-deltas_of idx o) (whole, sent_e ∙ s)
        | inr u ↦
            let (only, sent) =
              unnamed_assembled t idx (flush_arg_converter t slot).0 cnt o
                (rw (name_e ∙ v.named) ok) in
            rw (end_unsent t idx slot cnt u, only) (whole, sent)
      ]

  -- For a call whose name is known and accepted, with an argument converter: after any chunks
  -- of arguments, if the converter makes JSON of the whole of them at the end, and what the
  -- chunks' deltas put together say is a prefix of that JSON with its types fixed, then the
  -- deltas of the chunks and of the call's end together say exactly that JSON, and the name is
  -- sent.
  pub arguments_assembled :
      (cnt : ℕ) (values : List Text) (json : Text)
      → f (join values) false ≡ some json
      → starts_with
          (final_json t name json)
          (assembled (handle_chunks t idx (record new_slot { name = name }) cnt values).2)
        ≡ true
      → let (slot, cnt', deltas) =
          handle_chunks t idx (record new_slot { name = name }) cnt values in
        let (slot', cnt'', last) = handle_tool_end t idx slot cnt' in
        (assembled (deltas ++ last) ≡ final_json t name json) × (slot'.name_sent ≡ true)
  arguments_assembled cnt values json j h =
      let start = record new_slot { name = name } in
      let (slot, cnt', deltas) = handle_chunks t idx start cnt values in
      let v = chunks-Live cnt values [] [] start (record {
        named = refl;
        grown = refl;
        streamed = record { sent = λ s. cc; unsent = λ u. refl; nothing = λ u. refl };
      }) in
      rw (assembled-append deltas (handle_tool_end t idx slot cnt').2)
        (end-Live cnt' (join values) (assembled deltas) json slot v j h)
