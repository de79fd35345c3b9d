-- ===== src/Tests/Deltas.antt =====
-- Streams and messages of tool calls (patches/parser-engine.dsml-orphan.py).
use deepseek_v4_flash_mi300x.Prelude.{
  ℕ, ◌≡◌, refl, Bool, true, false, Option, none, some, List, [], ◌∷◌, ◌++◌, mem,
}
use deepseek_v4_flash_mi300x.Parser.{Text, content, starts_with, join, text_eq}
use deepseek_v4_flash_mi300x.Parser.Dsml.{deepseek_v4_config}
use deepseek_v4_flash_mi300x.Parser.Protocol.Formats.{v4-IsDsml}
use deepseek_v4_flash_mi300x.Tests.Parser.{v4, chars, engine_in, run_name}
use deepseek_v4_flash_mi300x.Deltas.{
  DeltaToolCall, new_slot, Tools, scan_char, scan_json, skip_spaces, string_end, safe_end,
  safe_arg_prefix,
}
use deepseek_v4_flash_mi300x.Deltas.Slots.{
  extend_streamed, stream_converted, compute_with, compute_arg_delta, append_args, handle_arg_chunk,
  handle_tool_end, name_slot, emit_name_delta,
}
use deepseek_v4_flash_mi300x.Deltas.Slots.Assembled.{assembled}
use deepseek_v4_flash_mi300x.Deltas.Slots.Complete.{handle_chunks, arguments_assembled}
use deepseek_v4_flash_mi300x.Deltas.Messages.{DeltaMessage, coalesce}
use deepseek_v4_flash_mi300x.Deltas.Messages.Coalesce.{
  arguments_of, name_of, are_distinct, coalesce_lem,
}
use deepseek_v4_flash_mi300x.Deltas.Reasoning.{
  extract_content_ids, is_reasoning_end, count_reasoning_tokens, reasoning_sections,
}
use deepseek_v4_flash_mi300x.Deltas.Parsing.{ToolCall, Extraction, single_pass_parse, parse}
use deepseek_v4_flash_mi300x.Deltas.Parsing.Agreement.{extract_reasoning, reasoning_agrees}
use deepseek_v4_flash_mi300x.Deltas.Parsing.Accepted.{IsSound, given_calls, parse_calls}
use deepseek_v4_flash_mi300x.Deltas.Serving.{
  Options, Server, Delta, declare, parse_delta, parse_deltas, reset_parser,
}
use deepseek_v4_flash_mi300x.Deltas.Serving.Defined.{slots_found}
use deepseek_v4_flash_mi300x.Deltas.Serving.Suppressed.{
  parses, resets, run, are_silent, suppression_sticks,
}

-- arguments that are JSON as they are written
abbrev as_written : Text → Bool → Option Text
as_written args partial = some args

abbrev plain_tools : Tools
plain_tools = record {
  arg_converter = some as_written;
  stream_arg_deltas = true;
  is_structural = none;
  fix_arg_types = λ json name. json;
  is_valid_tool_name = λ name. true;
  streamable_string_keys = λ name. none;
  make_tool_call_id = λ name cnt. name;
  search_name = λ args. none;
}

-- {"a":"b and c"}
abbrev pieces : List Text
pieces = [] ∷ (b'{' ∷ b'"' ∷ b'a' ∷ b'"' ∷ b':' ∷ b'"' ∷ b'b' ∷ []) ∷ (b'c' ∷ b'"' ∷ b'}' ∷ []) ∷ []

abbrev whole : Text
whole = b'{' ∷ b'"' ∷ b'a' ∷ b'"' ∷ b':' ∷ b'"' ∷ b'b' ∷ b'c' ∷ b'"' ∷ b'}' ∷ []

arguments_assembled_example :
    let (slot, cnt, deltas) =
      handle_chunks plain_tools 1 (record new_slot { name = run_name }) 0 pieces in
    let (slot', cnt', last) = handle_tool_end plain_tools 1 slot cnt in
    (assembled (deltas ++ last) ≡ whole) × (slot'.name_sent ≡ true)
unfolding handle_chunks handle_arg_chunk append_args compute_arg_delta compute_with stream_converted
    extend_streamed emit_name_delta name_slot safe_arg_prefix scan_json scan_char skip_spaces
    safe_end string_end starts_with join assembled text_eq
arguments_assembled_example =
    arguments_assembled plain_tools as_written refl 1 run_name refl 0 pieces whole refl refl

abbrev options : Options
options = record { setup = v4; drops_blank = false; strips_reasoning = true; has_reasoning = true }

abbrev asks : Bool → Delta
asks chooses_none = record {
  tools = plain_tools;
  request = record { tools = some (run_name ∷ []); chooses_none = chooses_none };
  include_reasoning = true;
  text = b'a' ∷ b'<' ∷ b'r' ∷ [];
  ids = [];
}

-- the rest of an orphan invoke, with its arguments
abbrev more : Delta
more = record (asks false) { text = b'u' ∷ b'n' ∷ b'>' ∷ b'1' ∷ b'/' ∷ [] }

abbrev server : Server (Unit {0}) (Unit {0})
server = record {
  engine = engine_in content none;
  scanner = tt;
  lexer = tt;
  conversion = record {
    tool_slots = [];
    history_tool_call_cnt = 0;
    deferred_content = [];
    reasoning_ended = false;
    content_has_nonws = false;
    suppress_tool_calls = false;
  };
  deferred_reasoning = [];
}

slots_found_example :
    (sv' : Server (Unit {0}) (Unit {0})) × (ms : List (Option DeltaMessage)) × (parse_deltas chars
        options
        (reset_parser chars options none server)
        (asks false ∷ [])
      ≡ some (sv', ms))
    × (sv'' : Server (Unit {0}) (Unit {0})) × (m : Option DeltaMessage) × (parse_delta chars options
          true sv' more
        ≡ some (sv'', m))
unfolding deepseek_v4_config
slots_found_example =
    slots_found options (v4-IsDsml false) chars none server (asks false ∷ []) more refl

suppression_sticks_example :
    (sv' : Server (Unit {0}) (Unit {0})) × (ms : List (Option DeltaMessage)) × (run chars options
        server
        (parses false (asks true)
          ∷ parses true more
          ∷ resets none
          ∷ parses false (asks false)
          ∷ parses true more
          ∷ [])
      ≡ some (sv', ms))
    × (are_silent ms ≡ true)
suppression_sticks_example =
    suppression_sticks chars options server false (asks true)
      (parses true more ∷ resets none ∷ parses false (asks false) ∷ parses true more ∷ []) refl refl
      refl

abbrev delta_of : ℕ → Option Text → Option Text → DeltaToolCall
delta_of idx name arguments = record { index = idx; id = name; name = name; arguments = arguments }

-- two calls whose deltas come in turns
abbrev in_turns : List DeltaToolCall
in_turns =
    delta_of 1 (some run_name) none
    ∷ delta_of 2 (some run_name) (some (b'{' ∷ []))
    ∷ delta_of 1 none (some (b'a' ∷ []))
    ∷ delta_of 2 none (some (b'}' ∷ []))
    ∷ delta_of 1 none (some (b'b' ∷ []))
    ∷ []

coalesce_lem_example :
    (are_distinct (coalesce [] in_turns) ≡ true)
    × (arguments_of 1 (coalesce [] in_turns) ≡ b'a' ∷ b'b' ∷ [])
    × (name_of 1 (coalesce [] in_turns) ≡ some run_name)
coalesce_lem_example = coalesce_lem 1 in_turns

reasoning_sections_example :
    (count_reasoning_tokens (some 7) (some 8) (1 ∷ 7 ∷ 2 ∷ 3 ∷ 8 ∷ 4 ∷ []) ≡ 2)
    × (count_reasoning_tokens (some 7) (some 8) (2 ∷ 3 ∷ 8 ∷ 4 ∷ []) ≡ 2)
    × ((is_reasoning_end (some 7) (some 8) true false (1 ∷ 7 ∷ 2 ∷ 3 ∷ 8 ∷ 4 ∷ []) ≡ true)
        × (extract_content_ids (some 8) (1 ∷ 7 ∷ 2 ∷ 3 ∷ 8 ∷ 4 ∷ []) ≡ 4 ∷ []))
    × ((is_reasoning_end (some 7) (some 8) true false (2 ∷ 3 ∷ 8 ∷ 4 ∷ []) ≡ true)
        × (extract_content_ids (some 8) (2 ∷ 3 ∷ 8 ∷ 4 ∷ []) ≡ 4 ∷ []))
unfolding mem
reasoning_sections_example =
    reasoning_sections 7 8 (1 ∷ []) (2 ∷ 3 ∷ []) (4 ∷ []) true false refl refl refl refl

abbrev extraction : Extraction
extraction = record {
  extract_name_and_args = λ raw. (run_name, raw);
  strips_content_with_tools = true;
}

parse_calls_example :
    (sv' : Server (Unit {0}) (Unit {0})) × (reasoning : Option Text) × (text : Option Text)
    × (calls : Option (List ToolCall)) × (parse chars options extraction server more
        ≡ some (sv', (reasoning, text, calls)))
    × IsSound plain_tools
        (declare chars options server more).conversion.suppress_tool_calls
        (given_calls calls)
unfolding deepseek_v4_config
parse_calls_example = parse_calls options (v4-IsDsml false) chars extraction server more refl

reasoning_agrees_example :
    let (start, reasoning, text) = extract_reasoning chars options server more.text in
    (sv' : Server (Unit {0}) (Unit {0})) × (content' : Option Text) × (calls : List ToolCall)
    × (single_pass_parse chars options extraction plain_tools none server more.text []
        ≡ some (sv', reasoning, content', calls))
unfolding deepseek_v4_config
reasoning_agrees_example =
    reasoning_agrees options (v4-IsDsml false) chars extraction plain_tools server more.text refl
