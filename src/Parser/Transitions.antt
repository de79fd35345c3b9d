-- ===== src/Parser/Transitions.antt =====
-- The state machine from terminals and text to events, and the hold of a recovered tool call
-- (`StreamingParserEngine._on_terminal` and what it calls,
-- patches/streaming-parser-engine.dsml-orphan.py).
use deepseek_v4_flash_mi300x.Prelude.{
  ℕ, ◌+◌, Bool, true, false, not, ◌&&◌, ◌||◌, Option, none, some, List, [], ◌∷◌, ◌++◌, is_empty,
  if◌then◌else◌,
}
use deepseek_v4_flash_mi300x.Parser.{
  Text, EventType, text_chunk, reasoning_end, arg_value_chunk, SemanticEvent, event, ParserState,
  content, reasoning, message_header, tool_preamble, tool_args, tool_between, foreign_block,
  Terminal, drop_terminal, Transition, ParserEngineConfig, Setup, Engine, Emitted, is_tool_state,
  is_naming, is_args, is_between, is_header, is_text_chunk, is_start, is_reasoning_end, is_blank,
  text_mem, any_starts_with, join,
}
use deepseek_v4_flash_mi300x.Parser.Args.{feed_args_text}

-- the loop of `_run_transition` over the event types
unfoldable pub emit_events : Bool → Text → Text → ℕ → List EventType → ℕ × List SemanticEvent
emit_events was_header header value i [] = (i, [])
emit_events was_header header value i (t ∷ types) =
    let i' = if is_start t then i + 1 else i in
    let v = if was_header && is_text_chunk t then header else value in
    let (last, rest) = emit_events was_header header value i' types in
    (last, (if is_text_chunk t && is_empty v then rest else event t v i' ∷ rest))

-- the arguments that are still buffered when a transition leaves them
abbrev pub leaves_args : Engine → Transition → Bool
leaves_args e tr = is_args e.state && not (is_args tr.next_state) && not (is_empty e.args_buffer)

unfoldable pub run_transition : Engine → Transition → Text → Emitted
run_transition e tr value =
    let flushed =
      if leaves_args e tr then event arg_value_chunk e.args_buffer e.tool_index ∷ [] else [] in
    let was_header = is_header e.state in
    let header = if was_header then e.message_header_buffer else [] in
    let (i, events) = emit_events was_header header value e.tool_index tr.events in
    let enters = is_args tr.next_state in
    (
      record e {
        state = tr.next_state;
        tool_index = i;
        args_buffer = if leaves_args e tr then [] else e.args_buffer;
        pending_between_text = [];
        message_header_buffer = if was_header then [] else e.message_header_buffer;
        recovered_tool_call = e.recovered_tool_call && is_tool_state tr.next_state;
        args_brace_depth = if enters then 0 else e.args_brace_depth;
        args_in_string = if enters then false else e.args_in_string;
        args_escape_next = if enters then false else e.args_escape_next;
        args_safe_end = if enters then 0 else e.args_safe_end;
      },
      flushed ++ events,
    )

-- text after a recovered call: white space is held back until something else shows up
unfoldable pub emit_between : Engine → Text → Emitted
emit_between e text =
    let held = e.pending_between_text ++ text in
    if e.recovered_tool_call && is_between e.state
    then if is_blank held
      then (record e { pending_between_text = held }, [])
      else (record e { pending_between_text = [] }, event text_chunk held e.tool_index ∷ [])
    else (e, [])

-- text in a state that `content_events` names, or another
unfoldable pub emit_classified : Option EventType → Engine → Text → Emitted
unfolding emit_between
emit_classified (some t) e text = (e, event t text e.tool_index ∷ [])
emit_classified none e text = emit_between e text

-- `_emit_for_state` below its test of the hold, by the state
unfoldable pub emit_in : ParserState → Setup → Engine → Text → Emitted
unfolding emit_classified
emit_in message_header s e text =
    (record e { message_header_buffer = e.message_header_buffer ++ text }, [])
emit_in tool_args s e text =
    if s.config.tool_args_json
    then feed_args_text e text
    else (e, event arg_value_chunk text e.tool_index ∷ [])
emit_in st s e text = emit_classified (s.config.content_events st) e text

unfoldable pub clear_hold : Engine → Engine
clear_hold e = record e { hold_active = false; held_events = []; held_raw = []; held_name = [] }

-- `_abort_hold`. Its call of `_emit_for_state` finds no hold, so it is the part below that test.
unfoldable pub abort_hold : Setup → Engine → Text → Emitted
unfolding clear_hold emit_in
abort_hold s e raw =
    emit_in e.held_prior_state s
      (record (clear_hold e) {
        state = e.held_prior_state;
        tool_index = e.held_prior_tool_index;
        recovered_tool_call = is_tool_state e.held_prior_state;
      })
      raw

unfoldable pub can_grow_into_declared_name : Option (List Text) → Text → Bool
can_grow_into_declared_name none candidate = false
can_grow_into_declared_name (some names) candidate = any_starts_with names candidate

-- text that the name of the held call grows by
unfoldable pub hold_text : Engine → Text → Engine
hold_text e text = record e {
  held_raw = e.held_raw ++ text ∷ [];
  held_name = e.held_name ++ text ∷ [];
  held_events = e.held_events ++ event EventType.tool_name text e.tool_index ∷ [];
}

unfoldable pub emit_for_state : Setup → Engine → Text → Emitted
unfolding emit_in abort_hold hold_text
emit_for_state s e text =
    if e.hold_active && is_naming e.state
    then if can_grow_into_declared_name e.allowed_tool_names (join e.held_name ++ text)
      then (hold_text e text, [])
      else abort_hold s e (join e.held_raw ++ text)
    else emit_in e.state s e text

-- `_on_content`
unfoldable pub on_content : Setup → Engine → Text → Emitted
on_content s e text = if is_empty text then (e, []) else emit_for_state s e text

unfoldable pub begin_hold : Engine → Transition → Text → Emitted
begin_hold e tr value =
    let (e', events) = run_transition e tr value in
    (
      record e' {
        held_events = events;
        held_raw = value ∷ [];
        held_name = [];
        held_prior_state = e.state;
        held_prior_tool_index = e.tool_index;
        hold_active = true;
        recovered_tool_call = true;
      },
      [],
    )

-- the name is among the declared ones
unfoldable pub is_declared : Option (List Text) → Text → Bool
is_declared none name = false
is_declared (some names) name = text_mem name names

-- a held call whose name is declared: its events, and the transition
unfoldable pub commit_hold : Engine → Transition → Text → Emitted
unfolding clear_hold
commit_hold e tr value =
    let (e', events) = run_transition (clear_hold e) tr value in (e', e.held_events ++ events)

unfoldable pub resolve_hold : Setup → Engine → Transition → Text → Emitted
resolve_hold s e tr value =
    if is_declared e.allowed_tool_names (join e.held_name)
    then commit_hold e tr value
    else abort_hold s e (join e.held_raw ++ value)

abbrev pub is_none {ℓ} : {A : Type ℓ} → Option A → Bool
is_none none = true
is_none (some x) = false

-- no recovered call can be accepted for this request
abbrev pub recovers_nothing : Engine → Bool
recovers_nothing e = e.suppress_tool_calls || is_none e.allowed_tool_names

unfoldable pub apply_transition : Setup → Engine → Transition → Text → Emitted
apply_transition s e tr value =
    if e.hold_active
    then resolve_hold s e tr value
    else if tr.validate_tool_name
    then if recovers_nothing e then emit_for_state s e value else begin_hold e tr value
    else run_transition e tr value

abbrev pub states : List ParserState
states =
    content ∷ reasoning ∷ message_header ∷ tool_preamble ∷ ParserState.tool_name ∷ tool_args
    ∷ tool_between ∷ foreign_block ∷ []

abbrev pub touches_tool : ParserState → Option Transition → Bool
touches_tool st none = false
touches_tool st (some tr) = is_tool_state tr.next_state || is_tool_state st

abbrev pub any_touches : ParserEngineConfig → Terminal → List ParserState → Bool
any_touches c t [] = false
any_touches c t (st ∷ sts) = touches_tool st (c.transitions st t) || any_touches c t sts

-- `terminal in self._tool_terminals`
unfoldable pub is_tool_terminal : ParserEngineConfig → Terminal → Bool
is_tool_terminal c t = any_touches c t states

abbrev pub ends_reasoning : List EventType → Bool
ends_reasoning [] = false
ends_reasoning (t ∷ types) = is_reasoning_end t || ends_reasoning types

abbrev pub emit_skipped : Option EventType → Engine → Text → Emitted
emit_skipped none e value = (e, [])
emit_skipped (some t) e value = (e, event t value e.tool_index ∷ [])

-- a terminal of a tool call while tool calls are not parsed
unfoldable pub skip_terminal : Setup → Engine → Transition → Text → Emitted
skip_terminal s e tr value =
    if is_header e.state
    then (
      record e { state = content; message_header_buffer = [] },
      event text_chunk value e.tool_index ∷ [],
    )
    else if ends_reasoning tr.events
    then (
      record e { state = content },
      event reasoning_end value e.tool_index ∷ event text_chunk value e.tool_index ∷ [],
    )
    else emit_skipped (s.config.content_events e.state) e value

-- `_on_terminal` for a terminal that has a transition here
unfoldable pub follow : Setup → Engine → Transition → Terminal → Text → Emitted
unfolding skip_terminal
follow s e tr t value =
    if e.skip_tool_parsing && is_tool_terminal s.config t
    then skip_terminal s e tr value
    else if tr.skip_in_token_id_mode && e.ever_had_token_ids
    then emit_for_state s e value
    else apply_transition s e tr value

abbrev pub is_drop : Terminal → Bool
is_drop drop_terminal = true
is_drop _ = false

-- `_on_terminal` where no hold is to be ended: an unknown terminal is dropped or is text
unfoldable pub dispatch : Option Transition → Setup → Engine → Terminal → Text → Emitted
dispatch none s e t value = if s.has_drops && is_drop t then (e, []) else emit_for_state s e value
dispatch (some tr) s e t value = follow s e tr t value

abbrev pub ends_hold : Option Transition → Setup → Engine → Terminal → Bool
ends_hold none s e t = not (s.has_drops && is_drop t) && (e.hold_active && is_naming e.state)
ends_hold (some tr) s e t = false

-- the hold ends, and the terminal is handled again in the restored state
unfoldable pub end_hold : Setup → Engine → Terminal → Text → Emitted
end_hold s e t value =
    let (e', events) = abort_hold s e (join e.held_raw) in
    let (e'', rest) = dispatch (s.config.transitions e'.state t) s e' t value in
    (e'', events ++ rest)

-- `_on_terminal`. In the restored state there is no hold to end a second time.
unfoldable pub on_terminal : Setup → Engine → Terminal → Text → Emitted
on_terminal s e t value =
    let tr = s.config.transitions e.state t in
    if ends_hold tr s e t then end_hold s e t value else dispatch tr s e t value
