-- ===== src/Parser/Protocol.antt =====
-- What the consumer of the events may rely on: the order of a tool call's events and their indices
-- (patches/streaming-parser-engine.dsml-orphan.py).
use deepseek_v4_flash_mi300x.Prelude.{
  ℕ, ◌+◌, ◌≡◌, ◌⊎◌, inl, inr, refl, ◌∙◌, sym, ap, Bool, true, false, not, ◌&&◌, ◌||◌, Option, none,
  some, List, [], ◌∷◌, ◌++◌, ◌==◌, ltb, if◌then◌else◌, is_empty, Option-cases, Bool-cases, arith,
}
use deepseek_v4_flash_mi300x.Parser.{
  Text, EventType, text_chunk, reasoning_start, reasoning_chunk, reasoning_end, tool_call_start,
  arg_value_chunk, tool_call_end, SemanticEvent, event, ParserState, content, tool_args, Terminal,
  Transition, ParserEngineConfig, Engine, Emitted, is_tool_state, is_start, is_text_chunk,
  is_naming,
}
use deepseek_v4_flash_mi300x.Parser.Transitions.{ends_reasoning, emit_events}
pub mod Positions
pub mod Steps
pub mod Terminals
pub mod Runs
pub mod Endings
pub mod Formats

-- no tool call is open, one is open and its name may grow, one is open and has arguments
pub data Phase : Type 0 where
  outside naming in_args : Phase

-- The phases an event leads to. At the stream's `end`, a call that is closed may be closed again.
abbrev pub turn : Bool → Phase → EventType → Option Phase
turn end outside text_chunk = some outside
turn end outside reasoning_start = some outside
turn end outside reasoning_chunk = some outside
turn end outside reasoning_end = some outside
turn end outside tool_call_start = some naming
turn end outside tool_call_end = if end then some outside else none
turn end outside _ = none
turn end naming EventType.tool_name = some naming
turn end naming arg_value_chunk = some in_args
turn end naming tool_call_end = some outside
turn end naming _ = none
turn end in_args arg_value_chunk = some in_args
turn end in_args tool_call_end = some outside
turn end in_args _ = none

abbrev pub count_start : EventType → ℕ → ℕ
count_start t n = if is_start t then n + 1 else n

-- The consumer: the phase and the number of calls started, or `none` where an event is out of place
-- or has another index than that of the call that was started last.
unfoldable pub read : Bool → Phase → ℕ → List SemanticEvent → Option (Phase × ℕ)
read end p n [] = some (p, n)
read end p n (ev ∷ events) = elim (turn end p ev.type) [
  | none ↦ none
  | some q ↦
      let rest = read end q (count_start ev.type n) events in
      if ev.tool_index == count_start ev.type n then rest else none
]

abbrev pub is_end : EventType → Bool
is_end tool_call_end = true
is_end _ = false

-- each end of a call is that of a call that was started
unfoldable pub ends_counted : List SemanticEvent → Bool
ends_counted [] = true
ends_counted (ev ∷ events) = (not (is_end ev.type) || ltb 0 ev.tool_index) && ends_counted events

-- the state of the engine that goes with a phase
abbrev pub fits : ParserState → Phase → Bool
fits ParserState.tool_name naming = true
fits ParserState.tool_name _ = false
fits tool_args outside = false
fits tool_args _ = true
fits st outside = true
fits st _ = false

abbrev pub turns : Phase → List EventType → Option Phase
turns p [] = some p
turns p (t ∷ types) = elim (turn false p t) [ none ↦ none | some q ↦ turns q types ]

abbrev pub lands : Option Phase → ParserState → Bool
lands none st = false
lands (some p) st = fits st p

-- the events of a text in a state
abbrev pub classes : ParserState → Option EventType → Bool
classes st none = true
classes ParserState.tool_name (some EventType.tool_name) = true
classes ParserState.tool_name (some _) = false
classes tool_args (some arg_value_chunk) = true
classes tool_args (some _) = false
classes st (some text_chunk) = true
classes st (some reasoning_start) = true
classes st (some reasoning_chunk) = true
classes st (some reasoning_end) = true
classes st (some _) = false

-- A configuration whose tables follow the order of the events.
pub record IsDsml (c : ParserEngineConfig) : Type 0 where
  pub plain_args : c.tool_args_json ≡ false
  pub texts : (st : ParserState) → classes st (c.content_events st) ≡ true
  pub sound :
      (st : ParserState) (t : Terminal) (p : Phase) (tr : Transition)
      → c.transitions st t ≡ some tr
      → fits st p ≡ true
      → lands (turns p tr.events) tr.next_state ≡ true
  pub validated :
      (st : ParserState) (t : Terminal) (tr : Transition)
      → c.transitions st t ≡ some tr
      → tr.validate_tool_name ≡ true
      → (st ≡ content) × (tr.next_state ≡ ParserState.tool_name)
  pub ending :
      (st : ParserState) (t : Terminal) (p : Phase) (tr : Transition)
      → c.transitions st t ≡ some tr
      → ends_reasoning tr.events ≡ true
      → fits st p ≡ true
      → p ≡ outside

pub read-append :
    (end : Bool) (p q : Phase) (n m : ℕ) (xs ys : List SemanticEvent)
    → read end p n xs ≡ some (q, m)
    → read end p n (xs ++ ys) ≡ read end q m ys
unfolding read
read-append end p q n m [] ys h = ground arith
read-append end p q n m (x ∷ xs) ys h = elim (Option-cases (turn end p x.type)) [
  | inl none_e ↦ ground arith
  | inr (r, r_e) ↦ ground (arith, read-append end r q (count_start x.type n) m xs ys)
]

-- what the strict consumer takes, the one at the end of the stream takes
turn_end : (p q : Phase) (t : EventType) → turn false p t ≡ some q → turn true p t ≡ some q
turn_end p q t h = ground arith

pub read_end :
    (p q : Phase) (n m : ℕ) (xs : List SemanticEvent)
    → read false p n xs ≡ some (q, m)
    → read true p n xs ≡ some (q, m)
unfolding read
read_end p q n m [] h = h
read_end p q n m (x ∷ xs) h = elim (Option-cases (turn false p x.type)) [
  | inl none_e ↦ ground arith
  | inr (r, r_e) ↦ ground (arith, turn_end p r x.type r_e, read_end r q (count_start x.type n) m xs)
]

text_turn : (p r : Phase) (t : EventType) → turn false p t ≡ some r → is_text_chunk t ≡ true → p ≡ r
text_turn p r t h e = ground arith

-- the loop over a transition's event types
pub read-emit_events :
    (h : Bool) (header value : Text) (p q : Phase) (i : ℕ) (types : List EventType)
    → turns p types ≡ some q
    → let (j, events) = emit_events h header value i types in read false p i events ≡ some (q, j)
unfolding read emit_events
read-emit_events h header value p q i [] e = ground arith
read-emit_events h header value p q i (t ∷ types) e = elim (Option-cases (turn false p t)) [
  | inl none_e ↦ ground arith
  | inr (r, r_e) ↦
      ground (arith, text_turn p r t, read-emit_events h header value r q (count_start t i) types)
]
