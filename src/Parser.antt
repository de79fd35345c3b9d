-- ===== src/Parser.antt =====
-- The streaming parser engine: events, states, transitions and the engine's fields
-- (patches/parser-engine-config.dsml-orphan.py, patches/streaming-parser-engine.dsml-orphan.py).
-- A text is the list of its code points. `tool_index` is one more than the source's, which starts
-- at -1. An event's value that the source does not give is the empty text.
use deepseek_v4_flash_mi300x.Prelude.{
  ℕ, ◌+◌, Bool, true, false, ◌&&◌, ◌||◌, Option, none, some, List, [], ◌∷◌, ◌++◌, leb, ◌==◌,
  if◌then◌else◌,
}
pub mod Args
pub mod Transitions
pub mod Feed
pub mod Streams
pub mod Dsml
pub mod Protocol
pub mod Orphans
pub mod Holds

abbrev pub Text : Type 0
Text = List ℕ

-- the members of `EventType` that the engine emits
pub data EventType : Type 0 where
  text_chunk reasoning_start reasoning_chunk reasoning_end : EventType
  tool_call_start tool_name arg_value_chunk tool_call_end : EventType

pub record SemanticEvent : Type 0 where
  pub type : EventType
  pub value : Text
  pub tool_index : ℕ

abbrev pub event : EventType → Text → ℕ → SemanticEvent
event t v i = record { type = t; value = v; tool_index = i }

pub data ParserState : Type 0 where
  content reasoning message_header : ParserState
  tool_preamble tool_name tool_args tool_between : ParserState
  foreign_block : ParserState

-- the names of terminals of the two DSML formats, and the lexer's two of its own
pub data Terminal : Type 0 where
  content_terminal drop_terminal : Terminal
  think_start think_end tool_start tool_end : Terminal
  invoke_prefix invoke_name_end invoke_end param_close : Terminal
  foreign_start foreign_end : Terminal

pub record Transition : Type 0 where
  pub next_state : ParserState
  pub events : List EventType
  pub skip_in_token_id_mode : Bool
  pub validate_tool_name : Bool

-- the fields of the configuration that the engine reads; a `dict` is the function of its keys
pub record ParserEngineConfig : Type 0 where
  pub transitions : ParserState → Terminal → Option Transition
  pub content_events : ParserState → Option EventType
  pub initial_state : ParserState
  pub tool_args_json : Bool

-- what `__init__` computes from the tokenizer and nothing changes: whether the tokenizer has tokens
-- to drop, the terminals that have a token's id, and whether an id is such a terminal's or a dropped
-- token's
pub record Setup : Type 0 where
  pub config : ParserEngineConfig
  pub has_drops : Bool
  pub token_id_terminal_names : Terminal → Bool
  pub is_resolved_token_id : ℕ → Bool

pub record Engine : Type 0 where
  pub state : ParserState
  pub tool_index : ℕ
  pub ever_had_token_ids : Bool
  pub message_header_buffer : Text
  pub args_buffer : Text
  pub args_safe_end : ℕ
  pub args_brace_depth : ℕ
  pub args_in_string : Bool
  pub args_escape_next : Bool
  pub recovered_tool_call : Bool
  pub pending_between_text : Text
  pub hold_active : Bool
  pub held_events : List SemanticEvent
  pub held_raw : List Text
  pub held_name : List Text
  pub held_prior_state : ParserState
  pub held_prior_tool_index : ℕ
  pub skip_tool_parsing : Bool
  pub allowed_tool_names : Option (List Text)
  pub suppress_tool_calls : Bool

-- what a method leaves, and the events it returns
abbrev pub Emitted : Type 0
Emitted = Engine × List SemanticEvent

-- `_TOOL_STATES`
abbrev pub is_tool_state : ParserState → Bool
is_tool_state tool_preamble = true
is_tool_state ParserState.tool_name = true
is_tool_state tool_args = true
is_tool_state tool_between = true
is_tool_state _ = false

abbrev pub is_naming : ParserState → Bool
is_naming ParserState.tool_name = true
is_naming _ = false

abbrev pub is_args : ParserState → Bool
is_args tool_args = true
is_args _ = false

abbrev pub is_between : ParserState → Bool
is_between tool_between = true
is_between _ = false

abbrev pub is_header : ParserState → Bool
is_header message_header = true
is_header _ = false

abbrev pub is_text_chunk : EventType → Bool
is_text_chunk text_chunk = true
is_text_chunk _ = false

abbrev pub is_start : EventType → Bool
is_start tool_call_start = true
is_start _ = false

abbrev pub is_reasoning_end : EventType → Bool
is_reasoning_end reasoning_end = true
is_reasoning_end _ = false

-- the characters that `str.strip` takes off
unfoldable pub is_space : ℕ → Bool
is_space c =
    leb 9 c && leb c 13
    || leb 28 c && leb c 32
    || c == 0x85
    || c == 0xa0
    || c == 0x1680
    || leb 0x2000 c && leb c 0x200a
    || c == 0x2028
    || c == 0x2029
    || c == 0x202f
    || c == 0x205f
    || c == 0x3000

-- `strip()` leaves nothing
unfoldable pub is_blank : Text → Bool
is_blank [] = true
is_blank (c ∷ cs) = is_space c && is_blank cs

unfoldable pub text_eq : Text → Text → Bool
text_eq [] [] = true
text_eq (c ∷ cs) (d ∷ ds) = c == d && text_eq cs ds
text_eq _ _ = false

-- `name.startswith(candidate)`
unfoldable pub starts_with : Text → Text → Bool
starts_with name [] = true
starts_with [] (d ∷ ds) = false
starts_with (c ∷ cs) (d ∷ ds) = c == d && starts_with cs ds

unfoldable pub text_mem : Text → List Text → Bool
text_mem t [] = false
text_mem t (name ∷ names) = text_eq name t || text_mem t names

unfoldable pub any_starts_with : List Text → Text → Bool
any_starts_with [] t = false
any_starts_with (name ∷ names) t = starts_with name t || any_starts_with names t

-- `"".join`
unfoldable pub join : List Text → Text
join [] = []
join (t ∷ ts) = t ++ join ts
