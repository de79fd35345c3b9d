-- ===== src/Parser/Orphans/Followups.antt =====
-- The invoke that follows a recovered call (patches/streaming-parser-engine.dsml-orphan.py, with the
-- tables of patches/parser-deepseek-v4.dsml-orphan.py).
use deepseek_v4_flash_mi300x.Prelude.{ℕ, ◌+◌, ◌≡◌, Bool, false, List, [], ◌∷◌, is_empty, arith}
use deepseek_v4_flash_mi300x.Parser.{
  Text, EventType, tool_call_start, event, ParserState, tool_args, tool_between, Terminal,
  content_terminal, invoke_prefix, invoke_name_end, Engine,
}
use deepseek_v4_flash_mi300x.Parser.Transitions.{
  run_transition, emit_events, emit_for_state, emit_in, on_content, apply_transition, follow,
  dispatch, on_terminal,
}
use deepseek_v4_flash_mi300x.Parser.Feed.{LexToken, process_lex_token, process_tokens}
use deepseek_v4_flash_mi300x.Parser.Dsml.{v4_transitions, v4_content_events, deepseek_v4_config}
use deepseek_v4_flash_mi300x.Parser.Orphans.{setup}

abbrev pub token : Terminal → Text → LexToken
token t v = record { terminal = t; value = v }

-- An invoke between calls: its marker, its name and the name's end.
abbrev pub invoke : Text → Text → Text → List LexToken
invoke marker name end =
    token invoke_prefix marker ∷ token content_terminal name ∷ token invoke_name_end end ∷ []

module _ (thinking has_drops : Bool) (named : Terminal → Bool) (resolved : ℕ → Bool) where
  starts_call :
      (e : Engine) (v : Text)
      → e.state ≡ tool_between
      → e.hold_active ≡ false
      → e.skip_tool_parsing ≡ false
      → let (e', events) =
          on_terminal (setup thinking has_drops named resolved) e invoke_prefix v in
        (events ≡ event tool_call_start v (e.tool_index + 1) ∷ [])
        × (e'.state ≡ ParserState.tool_name)
        × (e'.hold_active ≡ false)
        × (e'.skip_tool_parsing ≡ false)
        × (e'.tool_index ≡ e.tool_index + 1)
  unfolding on_terminal dispatch follow apply_transition run_transition emit_events
      deepseek_v4_config v4_transitions
  starts_call e v st free skip =
      (ground arith, ground arith, ground arith, ground arith, ground arith)

  names_call :
      (e : Engine) (v : Text)
      → is_empty v ≡ false
      → e.state ≡ ParserState.tool_name
      → e.hold_active ≡ false
      → on_content (setup thinking has_drops named resolved) e v
        ≡ (e, event EventType.tool_name v e.tool_index ∷ [])
  unfolding on_content emit_for_state emit_in deepseek_v4_config v4_content_events
  names_call e v full st free = ground arith

  ends_name :
      (e : Engine) (v : Text)
      → e.state ≡ ParserState.tool_name
      → e.hold_active ≡ false
      → e.skip_tool_parsing ≡ false
      → let (e', events) =
          on_terminal (setup thinking has_drops named resolved) e invoke_name_end v in
        (events ≡ []) × (e'.state ≡ tool_args)
  unfolding on_terminal dispatch follow apply_transition run_transition emit_events
      deepseek_v4_config v4_transitions
  ends_name e v st free skip = (ground arith, ground arith)

  -- With the tables of DeepSeek V4, while tool calls are parsed and no token ids have come,
  -- between tool calls and with no hold: an invoke's marker, a name that is not empty and the
  -- name's end start a call with that name at once and lead to its arguments, whatever names
  -- the request declares.
  pub followup_accepted :
      (e : Engine) (marker name end : Text)
      → e.state ≡ tool_between
      → e.hold_active ≡ false
      → e.skip_tool_parsing ≡ false
      → is_empty name ≡ false
      → let (e', events) =
          process_tokens
            (setup thinking has_drops named resolved)
            false
            e
            (invoke marker name end) in
        (events
          ≡ event tool_call_start marker (e.tool_index + 1)
            ∷ event EventType.tool_name name (e.tool_index + 1)
            ∷ [])
        × (e'.state ≡ tool_args)
  unfolding process_tokens process_lex_token
  followup_accepted e marker name end st free skip full =
      let s = setup thinking has_drops named resolved in
      let m = on_terminal s e invoke_prefix marker in
      let (started, st', free', skip', index) = starts_call e marker st free skip in
      let named_e = names_call m.0 name full st' free' in
      let (ended, st'') = ends_name m.0 end st' free' skip' in
      rw named_e (ground (arith, started, ended, index), st'')
