-- ===== src/Parser/Dsml.antt =====
-- The transition tables of the DSML formats (patches/parser-deepseek-v4.dsml-orphan.py,
-- patches/parser-deepseek-v32.dsml-orphan.py).
use deepseek_v4_flash_mi300x.Prelude.{
  Bool, true, false, Option, none, some, List, [], ◌∷◌, if◌then◌else◌,
}
use deepseek_v4_flash_mi300x.Parser.{
  EventType, text_chunk, reasoning_start, reasoning_chunk, reasoning_end, tool_call_start,
  arg_value_chunk, tool_call_end, ParserState, content, reasoning, tool_preamble, tool_args,
  tool_between, foreign_block, Terminal, think_start, think_end, tool_end, invoke_prefix,
  invoke_name_end, invoke_end, foreign_start, foreign_end, Transition, ParserEngineConfig,
}

abbrev pub moves : ParserState → List EventType → Option Transition
moves st types = some (record {
  next_state = st;
  events = types;
  skip_in_token_id_mode = false;
  validate_tool_name = false;
})

-- an invoke without its wrapper, held until the name is validated
abbrev pub recovers : Option Transition
recovers = some (record {
  next_state = ParserState.tool_name;
  events = tool_call_start ∷ [];
  skip_in_token_id_mode = false;
  validate_tool_name = true;
})

-- the transitions inside tool calls and foreign blocks
unfoldable pub v32_transitions : ParserState → Terminal → Option Transition
v32_transitions content Terminal.tool_start = moves tool_preamble []
v32_transitions content invoke_prefix = recovers
v32_transitions content foreign_start = moves foreign_block (text_chunk ∷ [])
v32_transitions foreign_block foreign_end = moves content (text_chunk ∷ [])
v32_transitions foreign_block Terminal.tool_start = moves tool_preamble []
v32_transitions tool_preamble invoke_prefix = moves ParserState.tool_name (tool_call_start ∷ [])
v32_transitions ParserState.tool_name invoke_name_end = moves tool_args []
v32_transitions tool_args invoke_end = moves tool_between (tool_call_end ∷ [])
v32_transitions tool_args tool_end = moves content (tool_call_end ∷ [])
v32_transitions tool_between invoke_prefix = moves ParserState.tool_name (tool_call_start ∷ [])
v32_transitions tool_between tool_end = moves content []
v32_transitions st t = none

unfoldable pub v4_transitions : ParserState → Terminal → Option Transition
unfolding v32_transitions
v4_transitions content think_start = moves reasoning (reasoning_start ∷ [])
v4_transitions content think_end = moves content []
v4_transitions reasoning think_start = moves reasoning []
v4_transitions reasoning think_end = moves content (reasoning_end ∷ [])
v4_transitions reasoning Terminal.tool_start = moves tool_preamble (reasoning_end ∷ [])
v4_transitions st t = v32_transitions st t

unfoldable pub v32_content_events : ParserState → Option EventType
v32_content_events content = some text_chunk
v32_content_events ParserState.tool_name = some EventType.tool_name
v32_content_events tool_args = some arg_value_chunk
v32_content_events foreign_block = some text_chunk
v32_content_events st = none

unfoldable pub v4_content_events : ParserState → Option EventType
unfolding v32_content_events
v4_content_events reasoning = some reasoning_chunk
v4_content_events st = v32_content_events st

unfoldable pub deepseek_v4_config : Bool → ParserEngineConfig
deepseek_v4_config thinking = record {
  transitions = v4_transitions;
  content_events = v4_content_events;
  initial_state = if thinking then reasoning else content;
  tool_args_json = false;
}

unfoldable pub deepseek_v32_config : ParserEngineConfig
deepseek_v32_config = record {
  transitions = v32_transitions;
  content_events = v32_content_events;
  initial_state = content;
  tool_args_json = false;
}
