-- ===== src/Parser/Feed.antt =====
-- Deltas through the scanner and the lexer into the state machine (`feed`, `finish` and
-- `parse_complete` of patches/streaming-parser-engine.dsml-orphan.py).
use deepseek_v4_flash_mi300x.Prelude.{
  ℕ, Bool, true, false, not, ◌&&◌, ◌||◌, Option, none, some, List, [], ◌∷◌, ◌++◌, is_empty, ltb,
  if◌then◌else◌,
}
use deepseek_v4_flash_mi300x.Parser.{
  Text, text_chunk, reasoning_end, arg_value_chunk, tool_call_end, SemanticEvent, event,
  ParserState, content, reasoning, message_header, Terminal, content_terminal, Setup, Engine,
  Emitted, is_tool_state, join, ParserEngineConfig,
}
use deepseek_v4_flash_mi300x.Parser.Transitions.{
  abort_hold, emit_for_state, on_content, on_terminal,
}

pub record LexToken : Type 0 where
  pub terminal : Terminal
  pub value : Text

-- what the scanner hands on
pub data LexerInput : Type 0 where
  pre_lexed_terminal : Terminal → Text → LexerInput
  text_piece : Text → LexerInput

-- The scanner and the lexer, by what the engine calls and reads of them.
pub record Lexing (Scanner Lexer : Type 0) : Type 0 where
  pub scan : Scanner → Text → List ℕ → Scanner × List LexerInput
  pub flush_pending : Scanner → Scanner × List LexerInput
  pub has_deferred : Scanner → Bool
  pub reset_scanner : Scanner → Scanner
  pub lex : Lexer → Text → Lexer × List LexToken
  pub flush : Lexer → Lexer × List LexToken
  pub has_buffer : Lexer → Bool
  pub is_first_char : ℕ → Bool
  pub reset_lexer : Lexer → Lexer

abbrev pub is_content : Terminal → Bool
is_content content_terminal = true
is_content _ = false

-- one token of `_process_lex_tokens`
unfoldable pub process_lex_token : Setup → Bool → Engine → LexToken → Emitted
process_lex_token s is_text e tok =
    if is_text then on_content s e tok.value else on_terminal s e tok.terminal tok.value

-- `had_ids` is `_ever_had_token_ids` when the loop begins
unfoldable pub process_tokens : Setup → Bool → Engine → List LexToken → Emitted
process_tokens s had_ids e [] = (e, [])
process_tokens s had_ids e (tok ∷ tokens) =
    let is_text = is_content tok.terminal || had_ids && s.token_id_terminal_names tok.terminal in
    let (e', events) = process_lex_token s is_text e tok in
    let (e'', rest) = process_tokens s had_ids e' tokens in (e'', events ++ rest)

unfoldable pub process_lex_tokens : Setup → Engine → List LexToken → Emitted
process_lex_tokens s e tokens = process_tokens s e.ever_had_token_ids e tokens

abbrev pub if_given {ℓ} : {A : Type ℓ} → Option A → A → A
if_given none y = y
if_given (some x) y = x

-- the buffered arguments at the end of the stream
unfoldable pub flush_args : Engine → Emitted
flush_args e = if is_empty e.args_buffer then (e, []) else (
  record e { args_buffer = []; args_safe_end = 0 },
  event arg_value_chunk e.args_buffer e.tool_index ∷ [],
)

-- the end of an open tool call, of reasoning, or of a header
unfoldable pub close_state : ParserState → Engine → Emitted
close_state reasoning e = (record e { state = content }, event reasoning_end [] e.tool_index ∷ [])
close_state message_header e =
    if is_empty e.message_header_buffer then (record e { state = content }, []) else (
      record e { state = content; message_header_buffer = [] },
      event text_chunk e.message_header_buffer e.tool_index ∷ [],
    )
close_state st e =
    if is_tool_state st
    then (
      record e { state = content },
      (if ltb 0 e.tool_index then event tool_call_end [] e.tool_index ∷ [] else []),
    )
    else (e, [])

-- a hold that is open when the stream ends
unfoldable pub finish_hold : Setup → Engine → Emitted
finish_hold s e = if e.hold_active then abort_hold s e (join e.held_raw) else (e, [])

-- `finish` after the last tokens
unfoldable pub finish_engine : Setup → Engine → Emitted
finish_engine s e =
    let (e1, held) = finish_hold s e in
    let (e2, args) = flush_args e1 in
    let (e3, last) = close_state e2.state e2 in (e3, held ++ (args ++ last))

-- `reset`: what is not set here, `skip_tool_parsing` and the request's fields, survives
unfoldable pub reset : ParserEngineConfig → Option ParserState → Engine → Engine
reset c initial e =
    let start = if_given initial c.initial_state in
    record e {
      state = start;
      tool_index = 0;
      ever_had_token_ids = false;
      message_header_buffer = [];
      args_buffer = [];
      args_safe_end = 0;
      args_brace_depth = 0;
      args_in_string = false;
      args_escape_next = false;
      recovered_tool_call = false;
      pending_between_text = [];
      hold_active = false;
      held_events = [];
      held_raw = [];
      held_name = [];
      held_prior_state = start;
      held_prior_tool_index = 0;
    }

-- a single text item: a single piece of text goes out as it is
unfoldable pub process_text : Setup → Engine → List LexToken → Emitted
process_text s e (tok ∷ []) =
    if is_content tok.terminal
    then emit_for_state s e tok.value
    else process_lex_tokens s e (tok ∷ [])
process_text s e tokens = process_lex_tokens s e tokens

-- `self._ever_had_token_ids = True`, when there are ids
abbrev pub note_ids : Engine → List ℕ → Engine
note_ids e ids = record e { ever_had_token_ids = e.ever_had_token_ids || not (is_empty ids) }

module _ {Scanner Lexer : Type 0} (l : Lexing Scanner Lexer) (s : Setup) where
  -- one item of `_process_scanner_items`: the engine, the lexer and the events
  unfoldable pub process_item : Engine → Lexer → LexerInput → Engine × Lexer × List SemanticEvent
  process_item e lexer (pre_lexed_terminal t text) =
      let (lexer', tokens) = l.flush lexer in
      let (e', events) = process_lex_tokens s e tokens in
      let (e'', rest) = on_terminal s e' t text in (e'', lexer', events ++ rest)
  process_item e lexer (text_piece text) =
      let (lexer', tokens) = l.lex lexer text in
      let (e', events) = process_lex_tokens s e tokens in (e', lexer', events)

  unfoldable pub process_scanner_items :
      Engine → Lexer → List LexerInput → Engine × Lexer × List SemanticEvent
  process_scanner_items e lexer [] = (e, lexer, [])
  process_scanner_items e lexer (item ∷ items) =
      let (e', lexer', events) = process_item e lexer item in
      let (e'', lexer'', rest) = process_scanner_items e' lexer' items in
      (e'', lexer'', events ++ rest)

  abbrev pub any_resolved : List ℕ → Bool
  any_resolved [] = false
  any_resolved (tid ∷ ids) = s.is_resolved_token_id tid || any_resolved ids

  abbrev pub any_first_char : Text → Bool
  any_first_char [] = false
  any_first_char (c ∷ text) = l.is_first_char c || any_first_char text

  -- the fast path's conditions
  abbrev pub is_plain : Scanner → Lexer → Text → List ℕ → Bool
  is_plain scanner lexer text ids =
      not (is_empty text)
      && not (l.has_buffer lexer)
      && not (l.has_deferred scanner)
      && not (any_first_char text)
      && not (any_resolved ids)

  unfoldable pub process_scanned :
      Engine → Lexer → List LexerInput → Engine × Lexer × List SemanticEvent
  process_scanned e lexer (text_piece text ∷ []) =
      let (lexer', tokens) = l.lex lexer text in
      let (e', events) = process_text s e tokens in (e', lexer', events)
  process_scanned e lexer items = process_scanner_items e lexer items

  -- a delta that goes through the scanner and the lexer
  unfoldable pub feed_scanned :
      Engine → Scanner → Lexer → Text → List ℕ → Engine × Scanner × Lexer × List SemanticEvent
  feed_scanned e scanner lexer text ids =
      let (scanner', items) = l.scan scanner text ids in
      let (e', lexer', events) = process_scanned e lexer items in (e', scanner', lexer', events)

  unfoldable pub feed_plain :
      Engine → Scanner → Lexer → Text → Engine × Scanner × Lexer × List SemanticEvent
  feed_plain e scanner lexer text =
      let (e', events) = emit_for_state s e text in (e', scanner, lexer, events)

  unfoldable pub feed :
      Engine → Scanner → Lexer → Text → List ℕ → Engine × Scanner × Lexer × List SemanticEvent
  feed e scanner lexer text ids =
      if is_plain scanner lexer text ids
      then feed_plain (note_ids e ids) scanner lexer text
      else feed_scanned (note_ids e ids) scanner lexer text ids

  unfoldable pub finish : Engine → Scanner → Lexer → Engine × Scanner × Lexer × List SemanticEvent
  finish e scanner lexer =
      let (scanner', items) = l.flush_pending scanner in
      let (e1, lexer1, pending) = process_scanner_items e lexer items in
      let (lexer2, tokens) = l.flush lexer1 in
      let (e2, events) = process_lex_tokens s e1 tokens in
      let (e3, last) = finish_engine s e2 in (e3, scanner', lexer2, pending ++ (events ++ last))

  unfoldable pub parse_complete :
      Engine → Scanner → Lexer → Text → Engine × Scanner × Lexer × List SemanticEvent
  parse_complete e scanner lexer text =
      let (e1, scanner1, lexer1, events) = feed e scanner lexer text [] in
      let (e2, scanner2, lexer2, rest) = finish e1 scanner1 lexer1 in
      (e2, scanner2, lexer2, events ++ rest)
