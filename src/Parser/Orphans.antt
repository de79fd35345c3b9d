-- ===== src/Parser/Orphans.antt =====
-- An orphan invoke that is not accepted as a tool call is text again
-- (patches/streaming-parser-engine.dsml-orphan.py, with the tables of
-- patches/parser-deepseek-v4.dsml-orphan.py).
use mathlib.Core.List.{append_assoc, append-nil}
use deepseek_v4_flash_mi300x.Prelude.{
  ℕ, ◌≡◌, ◌⊎◌, inl, inr, refl, ◌∙◌, sym, ap, Bool, true, false, not, ◌&&◌, ◌||◌, Option, none, some,
  List, [], ◌∷◌, ◌++◌, if◌then◌else◌, is_empty, Bool-cases, List-cases, All, All-append, arith,
}
use deepseek_v4_flash_mi300x.Parser.{
  Text, EventType, text_chunk, SemanticEvent, event, ParserState, content, foreign_block, Terminal,
  think_start, think_end, drop_terminal, invoke_prefix, invoke_name_end, foreign_start, foreign_end,
  Setup, Engine, Emitted, is_start, is_text_chunk, join,
}
use deepseek_v4_flash_mi300x.Parser.Transitions.{
  run_transition, emit_events, emit_classified, emit_in, clear_hold, abort_hold, hold_text,
  emit_for_state, on_content, begin_hold, commit_hold, resolve_hold, recovers_nothing,
  apply_transition, skip_terminal, follow, dispatch, ends_hold, end_hold, on_terminal,
  can_grow_into_declared_name, is_declared, is_tool_terminal,
}
use deepseek_v4_flash_mi300x.Parser.Feed.{
  LexToken, is_content, process_lex_token, process_tokens, flush_args, close_state, finish_hold,
  finish_engine,
}
use deepseek_v4_flash_mi300x.Parser.Dsml.{v4_transitions, v4_content_events, deepseek_v4_config}
pub mod Tokens
pub mod Terminals
pub mod Streams
pub mod Undeclared
pub mod Followups

-- text of one kind of event, in order
unfoldable pub texts : List SemanticEvent → Text
texts [] = []
texts (ev ∷ events) = if is_text_chunk ev.type then ev.value ++ texts events else texts events

-- a tool call is started
unfoldable pub has_start : List SemanticEvent → Bool
has_start [] = false
has_start (ev ∷ events) = is_start ev.type || has_start events

-- nothing but text
unfoldable pub is_all_text : List SemanticEvent → Bool
is_all_text [] = true
is_all_text (ev ∷ events) = is_text_chunk ev.type && is_all_text events

abbrev pub values : List LexToken → Text
values [] = []
values (tok ∷ tokens) = tok.value ++ values tokens

-- Terminals other than those of thinking, of a wrapper's start and of dropped tokens.
abbrev pub is_unwrapped : Terminal → Bool
is_unwrapped think_start = false
is_unwrapped think_end = false
is_unwrapped Terminal.tool_start = false
is_unwrapped drop_terminal = false
is_unwrapped t = true

abbrev pub is_outer : ParserState → Bool
is_outer content = true
is_outer foreign_block = true
is_outer st = false

-- text of a hold that has not been released
unfoldable pub unreleased : Engine → Text
unreleased e = if e.hold_active then join e.held_raw else []

-- in content or in a foreign block, with no hold and no buffered arguments
pub record Outer (e : Engine) : Type 0 where
  pub free : e.hold_active ≡ false
  pub outer : is_outer e.state ≡ true
  pub unbuffered : e.args_buffer ≡ []

-- with a hold that began in content
pub record Holding (e : Engine) : Type 0 where
  pub active : e.hold_active ≡ true
  pub state : e.state ≡ ParserState.tool_name
  pub prior : e.held_prior_state ≡ content
  pub starts : has_start e.held_events ≡ true
  pub kept : e.skip_tool_parsing ≡ false
  pub unbuffered : e.args_buffer ≡ []

abbrev pub Waiting : Engine → Type 0
Waiting e = Outer e ⊎ Holding e

-- All that came in so far went out as text or is held.
abbrev pub Released : Emitted → Text → Type 0
Released m text = Waiting m.0 × (texts m.1 ++ unreleased m.0 ≡ text) × (is_all_text m.1 ≡ true)

-- It did, or a tool call was started.
abbrev pub Kept : Emitted → Text → Type 0
Kept m text = (has_start m.1 ≡ true) ⊎ Released m text

module _ (thinking has_drops : Bool) (named : Terminal → Bool) (resolved : ℕ → Bool) where
  abbrev pub setup : Setup
  setup = record {
    config = deepseek_v4_config thinking;
    has_drops = has_drops;
    token_id_terminal_names = named;
    is_resolved_token_id = resolved;
  }
