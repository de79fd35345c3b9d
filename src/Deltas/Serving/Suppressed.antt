-- ===== src/Deltas/Serving/Suppressed.antt =====
-- The suppression of tool calls over many requests (`_check_skip_tool_parsing`, `_reset`,
-- patches/parser-engine.dsml-orphan.py).
use deepseek_v4_flash_mi300x.Prelude.{
  ◌≡◌, inl, inr, refl, Bool, true, false, ◌&&◌, Option, none, some, List, [], ◌∷◌, is_empty,
  Bool-cases, arith,
}
use deepseek_v4_flash_mi300x.Parser.{Text, SemanticEvent, ParserState}
use deepseek_v4_flash_mi300x.Parser.Feed.{Lexing}
use deepseek_v4_flash_mi300x.Deltas.{Tools}
use deepseek_v4_flash_mi300x.Deltas.Messages.{
  Loop, Conversion, DeltaMessage, coalesce, settle_content, finish_delta, events_to_delta,
  has_tools, check_skip_tool_parsing,
}
use deepseek_v4_flash_mi300x.Deltas.Messages.Defined.{loop_suppressed, converts}
use deepseek_v4_flash_mi300x.Deltas.Serving.{
  Options, Server, Delta, with_reasoning, strip_message, strip_trailing_reasoning, settle_reasoning,
  new_events, declare, settle, convert, parse_delta, reset_parser,
}

-- a message, if there is one, without tool calls
abbrev pub has_no_calls : Option DeltaMessage → Bool
has_no_calls none = true
has_no_calls (some m) = is_empty m.tool_calls

finish_delta_silent :
    (drops finished : Bool) (c : Conversion) (v : Loop)
    → c.suppress_tool_calls ≡ true
    → v.deltas ≡ []
    → let (c', m) = finish_delta drops finished c v in
      (c'.suppress_tool_calls ≡ true) × (has_no_calls m ≡ true)
unfolding finish_delta settle_content coalesce
finish_delta_silent drops finished c v suppressed h = rw h (ground arith, ground arith)

events_to_delta_silent :
    (t : Tools) (drops finished : Bool) (c : Conversion) (events : List SemanticEvent)
    → c.suppress_tool_calls ≡ true
    → (c' : Conversion) × (m : Option DeltaMessage) × (events_to_delta t drops finished c events
        ≡ some (c', m))
      × (c'.suppress_tool_calls ≡ true)
      × (has_no_calls m ≡ true)
unfolding events_to_delta
events_to_delta_silent t drops finished c events suppressed =
    elim (Bool-cases (is_empty events && is_empty c.deferred_content)) [
      | inl nothing ↦ (c, none, rw nothing refl, suppressed, refl)
      | inr more ↦
          let (v, v_e, h, _) = loop_suppressed t c events suppressed in
          let (c', m) = finish_delta drops finished c v in
          let (kept, silent) = finish_delta_silent drops finished c v suppressed h in
          (c', m, converts t drops finished c v events more v_e, kept, silent)
    ]

with_reasoning_silent :
    (r : Option Text) (m : DeltaMessage)
    → is_empty m.tool_calls ≡ true
    → has_no_calls (with_reasoning r m) ≡ true
with_reasoning_silent r m h = ground arith

settle_reasoning_silent :
    (included : Bool) (m : Option DeltaMessage)
    → has_no_calls m ≡ true
    → has_no_calls (settle_reasoning included m) ≡ true
settle_reasoning_silent included none h = refl
settle_reasoning_silent true (some m) h = h
settle_reasoning_silent false (some m) h = with_reasoning_silent none m h

strip_message_silent :
    (deferred : Text) (ended : Bool) (m : DeltaMessage) (r : Option Text)
    → is_empty m.tool_calls ≡ true
    → has_no_calls (strip_message deferred ended m r).1 ≡ true
strip_message_silent deferred ended m none h = h
strip_message_silent deferred ended m (some r) h = with_reasoning_silent _ m h

strip_silent :
    (strips : Bool) (deferred : Text) (ended : Bool) (m : Option DeltaMessage)
    → has_no_calls m ≡ true
    → has_no_calls (strip_trailing_reasoning strips deferred ended m).1 ≡ true
unfolding strip_trailing_reasoning
strip_silent strips deferred ended none h = refl
strip_silent false deferred ended (some m) h = h
strip_silent true deferred ended (some m) h = strip_message_silent deferred ended m m.reasoning h

-- no message has tool calls
abbrev pub are_silent : List (Option DeltaMessage) → Bool
are_silent [] = true
are_silent (m ∷ ms) = has_no_calls m && are_silent ms

-- a delta of any request, or a reset for the next one
pub data Use : Type 0 where
  parses : Bool → Delta → Use
  resets : Option ParserState → Use

module _ {Scanner Lexer : Type 0} (l : Lexing Scanner Lexer) (o : Options) where
  -- the parser and its message after a use
  unfoldable pub step :
      Server Scanner Lexer → Use → Option (Server Scanner Lexer × Option DeltaMessage)
  step sv (parses finished d) = parse_delta l o finished sv d
  step sv (resets initial) = some (reset_parser l o initial sv, none)

  unfoldable pub run :
      Server Scanner Lexer → List Use → Option (Server Scanner Lexer × List (Option DeltaMessage))
  run sv [] = some (sv, [])
  run sv (u ∷ us) = elim (step sv u) [
    | none ↦ none
    | some (sv', m) ↦ elim (run sv' us) [ none ↦ none | some (sv'', ms) ↦ some (sv'', m ∷ ms) ]
  ]

  abbrev IsSuppressed : Server Scanner Lexer → Type 0
  IsSuppressed sv = sv.conversion.suppress_tool_calls ≡ true

  convert_silent :
      (finished : Bool) (d : Delta) (sv : Server Scanner Lexer) (events : List SemanticEvent)
      → IsSuppressed sv
      → (r : Server Scanner Lexer × Option DeltaMessage) × (convert l o finished d sv events
          ≡ some r)
        × IsSuppressed r.0
        × (has_no_calls r.1 ≡ true)
  unfolding convert
  convert_silent finished d sv events suppressed =
      let (c, m, m_e, kept, silent) =
        events_to_delta_silent d.tools o.drops_blank finished sv.conversion events suppressed in
      (
        settle l o d sv (c, m),
        rw (m_e, convert) refl,
        kept,
        settle_reasoning_silent d.include_reasoning _
            (strip_silent o.strips_reasoning sv.deferred_reasoning c.reasoning_ended m silent),
      )

  declared :
      (sv : Server Scanner Lexer) (d : Delta) → IsSuppressed sv → IsSuppressed (declare l o sv d)
  unfolding check_skip_tool_parsing
  declared sv d suppressed = ground arith

  step_silent :
      (sv : Server Scanner Lexer) (u : Use)
      → IsSuppressed sv
      → (r : Server Scanner Lexer × Option DeltaMessage) × (step sv u ≡ some r)
        × IsSuppressed r.0
        × (has_no_calls r.1 ≡ true)
  unfolding step parse_delta reset_parser
  step_silent sv (resets initial) suppressed = (_, refl, suppressed, refl)
  step_silent sv (parses finished d) suppressed =
      let sv' = declare l o sv d in
      let (e, scanner, lexer, events) =
        new_events l o finished sv'.engine sv'.scanner sv'.lexer d.text d.ids in
      convert_silent finished d (record sv' { engine = e; scanner = scanner; lexer = lexer }) events
        (declared sv d suppressed)

  run_silent :
      (sv : Server Scanner Lexer) (us : List Use)
      → IsSuppressed sv
      → (sv' : Server Scanner Lexer) × (ms : List (Option DeltaMessage)) × (run sv us
          ≡ some (sv', ms))
        × (are_silent ms ≡ true)
  unfolding run
  run_silent sv [] suppressed = (sv, [], refl, refl)
  run_silent sv (u ∷ us) suppressed =
      let ((sv1, m), m_e, kept, silent) = step_silent sv u suppressed in
      let (sv2, ms, ms_e, rest) = run_silent sv1 us kept in
      (sv2, m ∷ ms, rw (m_e, run) (rw ms_e refl), ground arith)

  -- Once a delta, the last of its stream or not, comes from a request that has tools and
  -- chooses none of them, while tool calls are parsed: that delta and all later deltas and
  -- resets, whatever their requests are, get messages without tool calls.
  pub suppression_sticks :
      (sv : Server Scanner Lexer) (finished : Bool) (d : Delta) (us : List Use)
      → d.request.chooses_none ≡ true
      → has_tools d.request.tools ≡ true
      → sv.engine.skip_tool_parsing ≡ false
      → (sv' : Server Scanner Lexer) × (ms : List (Option DeltaMessage)) × (run sv
            (parses finished d ∷ us)
          ≡ some (sv', ms))
        × (are_silent ms ≡ true)
  unfolding step parse_delta run check_skip_tool_parsing
  suppression_sticks sv finished d us chosen tools parses_tools =
      let sv1 = declare l o sv d in
      let (e, scanner, lexer, events) =
        new_events l o finished sv1.engine sv1.scanner sv1.lexer d.text d.ids in
      let ((sv2, m), m_e, kept, silent) =
        convert_silent finished d (record sv1 { engine = e; scanner = scanner; lexer = lexer })
          events (ground arith) in
      let (sv3, ms, ms_e, rest) = run_silent sv2 us kept in
      (sv3, m ∷ ms, rw (m_e, run) (rw ms_e refl), ground arith)
