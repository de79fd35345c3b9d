-- ===== src/Parser/Args.antt =====
-- The arguments of a tool call, streamed character by character with the closing braces of the top
-- level held back (`_feed_args_text`, patches/streaming-parser-engine.dsml-orphan.py).
use deepseek_v4_flash_mi300x.Prelude.{
  ℕ, ◌+◌, ◌-◌, Bool, true, false, ◌||◌, List, [], ◌∷◌, ◌++◌, length, take, drop, ltb, ◌==◌,
  if◌then◌else◌,
}
use deepseek_v4_flash_mi300x.Parser.{Text, SemanticEvent, event, arg_value_chunk, Engine, Emitted}
pub mod Streaming

-- `_flush_safe_args`
unfoldable pub flush_safe_args : Engine → Emitted
flush_safe_args e = if e.args_safe_end == 0 then (e, []) else (
  record e { args_buffer = drop e.args_safe_end e.args_buffer; args_safe_end = 0 },
  event arg_value_chunk (take e.args_safe_end e.args_buffer) e.tool_index ∷ [],
)

-- `self._args_safe_end = len(self._args_buffer)`, then the flush
unfoldable pub flush_all : Engine → Emitted
unfolding flush_safe_args
flush_all e = flush_safe_args (record e { args_safe_end = length e.args_buffer })

abbrev pub close_brace : Engine → Engine
close_brace e = record e {
  args_brace_depth = if ltb 0 e.args_brace_depth then e.args_brace_depth - 1 else 0;
}

-- the branches of `_feed_args_char` below the append
unfoldable pub classify_char : Engine → ℕ → Emitted
unfolding flush_all
classify_char e ch =
    if e.args_escape_next
    then flush_all (record e { args_escape_next = false })
    else if e.args_in_string
    then flush_all (
        if ch == b'\\'
        then record e { args_escape_next = true }
        else if ch == b'"'
        then record e { args_in_string = false }
        else e)
    else if ch == b'"'
    then flush_all (record e { args_in_string = true })
    else if ch == b'{' || ch == b'['
    then flush_all (record e { args_brace_depth = e.args_brace_depth + 1 })
    else if ch == b'}' || ch == b']'
    then if (close_brace e).args_brace_depth == 0
      then (close_brace e, [])
      else flush_all (close_brace e)
    else flush_all e

unfoldable pub feed_args_char : Engine → ℕ → Emitted
unfolding classify_char
feed_args_char e ch = classify_char (record e { args_buffer = e.args_buffer ++ ch ∷ [] }) ch

unfoldable pub feed_args_text : Engine → Text → Emitted
feed_args_text e [] = (e, [])
feed_args_text e (ch ∷ text) =
    let (e', events) = feed_args_char e ch in
    let (e'', rest) = feed_args_text e' text in (e'', events ++ rest)
