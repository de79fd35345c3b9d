-- ===== src/Deltas/Parsing/Agreement.antt =====
-- Reasoning alone, and that of a whole answer (`extract_reasoning`, `_single_pass_parse`,
-- patches/parser-engine.dsml-orphan.py).
use mathlib.Core.List.{append_assoc, append-nil}
use deepseek_v4_flash_mi300x.Prelude.{
  ℕ, ◌≡◌, inl, inr, refl, ◌∙◌, sym, ap, Bool, true, false, ◌&&◌, ◌||◌, Option, none, some, List, [],
  ◌∷◌, ◌++◌, is_empty, length, ltb, Bool-cases, Option-cases, if◌then◌else◌, arith,
}
use deepseek_v4_flash_mi300x.Parser.{
  Text, EventType, text_chunk, reasoning_start, reasoning_chunk, reasoning_end, tool_call_start,
  arg_value_chunk, tool_call_end, SemanticEvent, join,
}
use deepseek_v4_flash_mi300x.Parser.Feed.{Lexing}
use deepseek_v4_flash_mi300x.Parser.Protocol.{outside, fits, IsDsml}
use deepseek_v4_flash_mi300x.Deltas.{ToolCallSlot, Tools}
use deepseek_v4_flash_mi300x.Deltas.Slots.{Handled, handle_tool_end}
use deepseek_v4_flash_mi300x.Deltas.Messages.{
  Loop, position, change_slot, handle_type, handle_events, Conversion, DeltaMessage, start_loop,
  or_none, finish_delta, events_to_delta,
}
use deepseek_v4_flash_mi300x.Deltas.Messages.Defined.{converts}
use deepseek_v4_flash_mi300x.Deltas.Serving.{Options, Server, rstrip, new_events, reset_parser}
use deepseek_v4_flash_mi300x.Deltas.Parsing.{
  ToolCall, Extraction, reasoning_of, strip_reasoning, extract, single_pass_parse,
}
use deepseek_v4_flash_mi300x.Deltas.Parsing.Accepted.{answer_converts}

-- what an event adds to the parts of the reasoning, and of the content
abbrev pub reasoning_part : EventType → Text → List Text
reasoning_part reasoning_chunk value = value ∷ []
reasoning_part _ value = []

abbrev pub content_part : EventType → Text → List Text
content_part text_chunk value = value ∷ []
content_part _ value = []

abbrev pub is_end : EventType → Bool
is_end reasoning_end = true
is_end _ = false

unfoldable pub reasoning_parts : List SemanticEvent → List Text
reasoning_parts [] = []
reasoning_parts (ev ∷ events) = reasoning_part ev.type ev.value ++ reasoning_parts events

unfoldable pub content_parts : List SemanticEvent → List Text
content_parts [] = []
content_parts (ev ∷ events) = content_part ev.type ev.value ++ content_parts events

unfoldable pub any_end : List SemanticEvent → Bool
any_end [] = false
any_end (ev ∷ events) = is_end ev.type || any_end events

-- `extract_reasoning`
unfoldable pub extract_reasoning :
    {Scanner Lexer : Type 0}
    → Lexing Scanner Lexer
    → Options
    → Server Scanner Lexer
    → Text
    → Server Scanner Lexer × Option Text × Option Text
extract_reasoning l o sv text =
    let start = reset_parser l o none sv in
    let (e, scanner, lexer, events) =
      new_events l o true start.engine start.scanner start.lexer text [] in
    let raw = join (reasoning_parts events) in
    (
      record start {
        engine = e;
        scanner = scanner;
        lexer = lexer;
        conversion = record start.conversion {
          reasoning_ended = start.conversion.reasoning_ended || any_end events;
        };
      },
      or_none (if o.strips_reasoning then (rstrip raw).0 else raw),
      or_none (join (content_parts events)),
    )

change_slot_reasoning :
    (handle : ToolCallSlot → ℕ → Handled) (v v' : Loop) (i : Option ℕ)
    → change_slot handle v i ≡ some v'
    → v'.reasoning_parts ≡ v.reasoning_parts
unfolding change_slot
change_slot_reasoning handle v v' none h = ground arith
change_slot_reasoning handle v v' (some i) h = ground arith

handle_type_reasoning :
    (ty : EventType) (t : Tools) (suppress : Bool) (v v' : Loop) (ev : SemanticEvent)
    → handle_type ty t suppress v ev ≡ some v'
    → v'.reasoning_parts ≡ v.reasoning_parts ++ reasoning_part ty ev.value
unfolding handle_type
handle_type_reasoning text_chunk t suppress v v' ev h = ground (arith, append-nil v.reasoning_parts)
handle_type_reasoning reasoning_start t suppress v v' ev h =
    ground (arith, append-nil v.reasoning_parts)
handle_type_reasoning reasoning_chunk t suppress v v' ev h = ground arith
handle_type_reasoning reasoning_end t suppress v v' ev h =
    ground (arith, append-nil v.reasoning_parts)
handle_type_reasoning tool_call_start t suppress v v' ev h =
    ground (arith, append-nil v.reasoning_parts)
handle_type_reasoning EventType.tool_name t true v v' ev h =
    ground (arith, append-nil v.reasoning_parts)
handle_type_reasoning EventType.tool_name t false v v' ev h =
    change_slot_reasoning _ v v' _ h ∙ sym (append-nil v.reasoning_parts)
handle_type_reasoning arg_value_chunk t true v v' ev h =
    ground (arith, append-nil v.reasoning_parts)
handle_type_reasoning arg_value_chunk t false v v' ev h =
    change_slot_reasoning _ v v' _ h ∙ sym (append-nil v.reasoning_parts)
handle_type_reasoning tool_call_end t true v v' ev h = ground (arith, append-nil v.reasoning_parts)
handle_type_reasoning tool_call_end t false v v' ev h =
    elim (Bool-cases (ltb (length v.slots) ev.tool_index)) [
      | inl gone ↦ ground (arith, append-nil v.reasoning_parts)
      | inr there ↦
          change_slot_reasoning (handle_tool_end t ev.tool_index) v v'
            (position v.slots ev.tool_index) (ground arith)
          ∙ sym (append-nil v.reasoning_parts)
    ]

handle_events_reasoning :
    (t : Tools) (suppress : Bool) (v v' : Loop) (events : List SemanticEvent)
    → handle_events t suppress v events ≡ some v'
    → v'.reasoning_parts ≡ v.reasoning_parts ++ reasoning_parts events
unfolding handle_events reasoning_parts
handle_events_reasoning t suppress v v' [] h = ground (arith, append-nil v.reasoning_parts)
handle_events_reasoning t suppress v v' (ev ∷ events) h =
    elim (Option-cases (handle_type ev.type t suppress v ev)) [
      | inl none_e ↦ absurd (ground arith)
      | inr (w, w_e) ↦
          handle_events_reasoning t suppress w v' events (ground arith)
          ∙ ap (λ x. x ++ reasoning_parts events)
              (handle_type_reasoning ev.type t suppress v w ev w_e)
          ∙ append_assoc v.reasoning_parts (reasoning_part ev.type ev.value)
              (reasoning_parts events)
    ]

finish_delta_reasoning :
    (drops finished : Bool) (c : Conversion) (v : Loop)
    → let (c', m) = finish_delta drops finished c v in
      reasoning_of m ≡ or_none (join v.reasoning_parts)
unfolding finish_delta
finish_delta_reasoning drops finished c v = ground arith

no_parts : (events : List SemanticEvent) → is_empty events ≡ true → reasoning_parts events ≡ []
unfolding reasoning_parts
no_parts [] h = refl
no_parts (ev ∷ events) h = ground arith

message_made :
    (x y : Conversion × Option DeltaMessage) → some x ≡ some y → reasoning_of x.1 ≡ reasoning_of y.1
message_made x y h = ap (λ o. elim o [ none ↦ none | some r ↦ reasoning_of r.1 ]) h

events_to_delta_reasoning :
    (t : Tools) (drops finished : Bool) (c c' : Conversion) (m : Option DeltaMessage)
    (events : List SemanticEvent)
    → events_to_delta t drops finished c events ≡ some (c', m)
    → reasoning_of m ≡ or_none (join (reasoning_parts events))
unfolding events_to_delta join
events_to_delta_reasoning t drops finished c c' m events h =
    elim (Bool-cases (is_empty events && is_empty c.deferred_content)) [
      | inl nothing ↦
          let unchanged : events_to_delta t drops finished c events ≡ some (c, none) =
            rw nothing refl in
          rw (no_parts events (ground arith)) (message_made (c', m) (c, none) (sym h ∙ unchanged))
      | inr more ↦
          elim (Option-cases (handle_events t c.suppress_tool_calls (start_loop c) events)) [
            | inl none_e ↦ absurd (ground arith)
            | inr (v, v_e) ↦
                message_made (c', m) (finish_delta drops finished c v)
                  (sym h ∙ converts t drops finished c v events more v_e)
                ∙ finish_delta_reasoning drops finished c v
                ∙ ap (λ x. or_none (join x))
                    (handle_events_reasoning t c.suppress_tool_calls (start_loop c) v events v_e)
          ]
    ]

strip_or_none :
    (strips : Bool) (raw : Text)
    → strip_reasoning strips (or_none raw) ≡ or_none (if strips then (rstrip raw).0 else raw)
strip_or_none strips [] = ground arith
strip_or_none true (c ∷ raw) = refl
strip_or_none false (c ∷ raw) = refl

-- For a configuration whose tables follow the order of the events and that starts outside tool
-- calls, any scanner, lexer and tools: a whole answer without token ids is parsed without an
-- index out of range, and its reasoning is what `extract_reasoning` gives for it.
pub reasoning_agrees :
    (o : Options)
    → IsDsml o.setup.config
    → {Scanner Lexer : Type 0} (l : Lexing Scanner Lexer) (x : Extraction) (t : Tools)
      (sv : Server Scanner Lexer) (text : Text)
    → fits o.setup.config.initial_state outside ≡ true
    → let (start, reasoning, content) = extract_reasoning l o sv text in
      (sv' : Server Scanner Lexer) × (content' : Option Text) × (calls : List ToolCall)
      × (single_pass_parse l o x t none sv text [] ≡ some (sv', reasoning, content', calls))
unfolding single_pass_parse extract_reasoning
reasoning_agrees o d l x t sv text h =
    let start = reset_parser l o none sv in
    let (e, scanner, lexer, events) =
      new_events l o true start.engine start.scanner start.lexer text [] in
    let sv1 = record start { engine = e; scanner = scanner; lexer = lexer } in
    let (c, m, m_e, _) = answer_converts o d l x t none sv text [] h in
    let (sv2, reasoning, text', calls) = extract l o x t sv1 (c, m) in
    let same =
      ap (strip_reasoning o.strips_reasoning)
        (events_to_delta_reasoning t o.drops_blank true start.conversion c m events m_e)
      ∙ strip_or_none o.strips_reasoning (join (reasoning_parts events)) in
    (sv2, text', calls, rw (m_e, single_pass_parse) (ap (λ r. some (sv2, r, text', calls)) same))
