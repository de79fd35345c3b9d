-- ===== src/Tests/Parser.antt =====
-- Streams through the parser engine (patches/streaming-parser-engine.dsml-orphan.py).
use deepseek_v4_flash_mi300x.Prelude.{
  ℕ, ◌≤◌, ◌≡◌, refl, true, false, Option, none, some, List, [], ◌∷◌, ◌++◌, length, ◌==◌,
  if◌then◌else◌,
}
use deepseek_v4_flash_mi300x.Parser.{
  Text, event, tool_call_start, EventType, ParserState, content, tool_args, tool_between, Terminal,
  content_terminal, invoke_prefix, invoke_name_end, invoke_end, Setup, Engine, join,
}
use deepseek_v4_flash_mi300x.Parser.{any_starts_with, starts_with}
use deepseek_v4_flash_mi300x.Parser.Args.{feed_args_text}
use deepseek_v4_flash_mi300x.Parser.Args.Streaming.{chunk_values, HoldsBack, args_streamed}
use deepseek_v4_flash_mi300x.Parser.Feed.{
  LexToken, process_lex_token, Lexing, text_piece, process_tokens, finish_engine,
}
use deepseek_v4_flash_mi300x.Parser.Transitions.{
  on_content, emit_for_state, on_terminal, dispatch, follow, apply_transition, begin_hold,
  run_transition, emit_events, can_grow_into_declared_name, abort_hold, clear_hold, emit_in,
  emit_classified, hold_text, is_tool_terminal,
}
use deepseek_v4_flash_mi300x.Parser.Streams.{Call, feeds, declares, run, begin, finished}
use deepseek_v4_flash_mi300x.Parser.Dsml.{
  deepseek_v4_config, v4_transitions, v4_content_events, v32_transitions, v32_content_events,
}
use deepseek_v4_flash_mi300x.Parser.Protocol.{Phase, outside, read}
use deepseek_v4_flash_mi300x.Parser.Protocol.Formats.{v4-IsDsml}
use deepseek_v4_flash_mi300x.Parser.Protocol.Endings.{Ends, stream_protocol}
use deepseek_v4_flash_mi300x.Parser.Orphans.{texts, is_all_text, has_start, values, Outer, setup}
use deepseek_v4_flash_mi300x.Parser.Orphans.Streams.{orphans_released}
use deepseek_v4_flash_mi300x.Parser.Orphans.Undeclared.{undeclared_stay_text}
use deepseek_v4_flash_mi300x.Parser.Orphans.Followups.{token, invoke, followup_accepted}
use deepseek_v4_flash_mi300x.Parser.Holds.Streams.{as_calls, held_name_bounded}

abbrev pub v4 : Setup
v4 = setup false false (λ t. false) (λ tid. false)

-- a lexer whose terminals are single characters
abbrev terminal_of : ℕ → Terminal
terminal_of c =
    if c == b'<'
    then invoke_prefix
    else if c == b'>'
    then invoke_name_end
    else if c == b'/'
    then invoke_end
    else content_terminal

abbrev lex_chars : Text → List LexToken
lex_chars [] = []
lex_chars (c ∷ text) = token (terminal_of c) (c ∷ []) ∷ lex_chars text

abbrev pub chars : Lexing (Unit {0}) (Unit {0})
chars = record {
  scan = λ u text ids. (u, text_piece text ∷ []);
  flush_pending = λ u. (u, []);
  has_deferred = λ u. false;
  reset_scanner = λ u. u;
  lex = λ u text. (u, lex_chars text);
  flush = λ u. (u, []);
  has_buffer = λ u. false;
  is_first_char = λ c. true;
  reset_lexer = λ u. u;
}

abbrev pub engine_in : ParserState → Option (List Text) → Engine
engine_in st names = record {
  state = st;
  tool_index = 0;
  ever_had_token_ids = false;
  message_header_buffer = [];
  args_buffer = [];
  args_safe_end = 0;
  args_brace_depth = 0;
  args_in_string = false;
  args_escape_next = false;
  recovered_tool_call = false;
  pending_between_text = [];
  hold_active = false;
  held_events = [];
  held_raw = [];
  held_name = [];
  held_prior_state = content;
  held_prior_tool_index = 0;
  skip_tool_parsing = false;
  allowed_tool_names = names;
  suppress_tool_calls = false;
}

abbrev pub run_name : Text
run_name = b'r' ∷ b'u' ∷ b'n' ∷ []

-- an orphan invoke of a declared tool, and arguments
abbrev calls : List Call
calls =
    declares (some (run_name ∷ [])) false
    ∷ feeds (b'a' ∷ b'<' ∷ b'r' ∷ []) []
    ∷ feeds (b'u' ∷ b'n' ∷ b'>' ∷ b'1' ∷ b'/' ∷ []) []
    ∷ []

stream_protocol_example :
    let st = run chars v4 (begin v4 none (engine_in content none) tt tt) calls in
    (p : Phase) × (n : ℕ) × (read false outside 0 st.emitted ≡ some (p, n))
    × Ends (finished chars v4 st) p n
unfolding deepseek_v4_config
stream_protocol_example =
    stream_protocol v4 (v4-IsDsml false) chars none (engine_in content none) tt tt calls refl

-- an invoke of a tool that is not declared
abbrev wrong : List LexToken
wrong = lex_chars (b'<' ∷ b'r' ∷ b'm' ∷ [])

content-Outer : (names : Option (List Text)) → Outer (engine_in content names)
content-Outer names = record { free = refl; outer = refl; unbuffered = refl }

abbrev declared : Engine
declared = engine_in content (some (run_name ∷ []))

orphans_released_example :
    let (e', events) = process_tokens v4 false declared wrong in
    let (e'', last) = finish_engine v4 e' in
    (texts (events ++ last) ≡ values wrong) × (is_all_text (events ++ last) ≡ true) × Outer e''
unfolding has_start process_tokens process_lex_token on_content emit_for_state on_terminal dispatch
    follow apply_transition begin_hold run_transition emit_events can_grow_into_declared_name
    any_starts_with starts_with abort_hold clear_hold emit_in emit_classified hold_text
    deepseek_v4_config v4_transitions v4_content_events v32_transitions v32_content_events join
    is_tool_terminal
orphans_released_example =
    orphans_released false false (λ t. false) (λ tid. false) false declared wrong
      (content-Outer (some (run_name ∷ []))) (refl, (refl, (refl, tt))) refl

undeclared_stay_text_example :
    let (e', events) = process_tokens v4 false (engine_in content none) wrong in
    let (e'', last) = finish_engine v4 e' in
    (texts (events ++ last) ≡ values wrong) × (is_all_text (events ++ last) ≡ true)
undeclared_stay_text_example =
    undeclared_stay_text false false (λ t. false) (λ tid. false) false (engine_in content none)
      wrong (content-Outer none) (refl, (refl, (refl, tt))) refl

abbrev arguments : Text
arguments = b'{' ∷ b'1' ∷ b'}' ∷ b'}' ∷ []

args_streamed_example :
    let (e', events) = feed_args_text declared arguments in
    (chunk_values events ++ e'.args_buffer ≡ [] ++ arguments) × HoldsBack e'
args_streamed_example = args_streamed declared arguments (record { sent = refl; closers = tt })

held_name_bounded_example :
    length (
      join
        (run chars v4
          (begin v4 none declared tt tt)
          (as_calls ((b'<' ∷ b'r' ∷ b'u' ∷ [], []) ∷ []))).engine.held_name)
    ≤ 3
held_name_bounded_example =
    held_name_bounded chars v4 none declared tt tt ((b'<' ∷ b'r' ∷ b'u' ∷ [], []) ∷ [])

followup_accepted_example :
    let (e', events) =
      process_tokens v4 false
        (engine_in tool_between (some (run_name ∷ [])))
        (invoke (b'<' ∷ []) (b'x' ∷ []) (b'>' ∷ [])) in
    (events ≡ event tool_call_start (b'<' ∷ []) 1 ∷ event EventType.tool_name (b'x' ∷ []) 1 ∷ [])
    × (e'.state ≡ tool_args)
followup_accepted_example =
    followup_accepted false false (λ t. false) (λ tid. false)
      (engine_in tool_between (some (run_name ∷ []))) (b'<' ∷ []) (b'x' ∷ []) (b'>' ∷ []) refl refl
      refl refl
