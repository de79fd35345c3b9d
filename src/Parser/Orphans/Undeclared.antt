-- ===== src/Parser/Orphans/Undeclared.antt =====
-- A request that can recover no call: an orphan invoke stays text
-- (patches/streaming-parser-engine.dsml-orphan.py).
use deepseek_v4_flash_mi300x.Prelude.{
  ℕ, ◌≡◌, inl, inr, refl, Bool, true, false, ◌&&◌, ◌||◌, List, [], ◌∷◌, ◌++◌, is_empty, Bool-cases,
  All, arith,
}
use deepseek_v4_flash_mi300x.Parser.{Text, ParserState, content, Terminal, Setup, Engine, Emitted}
use deepseek_v4_flash_mi300x.Parser.Transitions.{
  run_transition, emit_events, emit_for_state, on_content, recovers_nothing, apply_transition,
  follow, dispatch, on_terminal, is_tool_terminal,
}
use deepseek_v4_flash_mi300x.Parser.Feed.{
  LexToken, is_content, process_lex_token, process_tokens, finish_engine,
}
use deepseek_v4_flash_mi300x.Parser.Orphans.{
  texts, has_start, is_all_text, values, is_unwrapped, is_outer, Outer, setup,
}
use deepseek_v4_flash_mi300x.Parser.Orphans.Tokens.{emit_plain, has_start-append}
use deepseek_v4_flash_mi300x.Parser.Orphans.Terminals.{
  recovery, text_move, outer_transition, no_drop, skip_text, follow_skips, follow_emits,
  on_terminal_dispatches,
}
use deepseek_v4_flash_mi300x.Parser.Orphans.Streams.{IsUnwrapped, orphans_released}

-- No call is started, and none can be.
abbrev Quiet : Emitted → Type 0
Quiet m = Outer m.0 × (recovers_nothing m.0 ≡ true) × (has_start m.1 ≡ false)

module _ (thinking has_drops : Bool) (named : Terminal → Bool) (resolved : ℕ → Bool) where
  abbrev s : Setup
  s = setup thinking has_drops named resolved

  emit-Quiet :
      (e : Engine) (v : Text) → Outer e → recovers_nothing e ≡ true → Quiet (emit_for_state s e v)
  unfolding has_start
  emit-Quiet e v o r = rw (emit_plain thinking has_drops named resolved e v o) (o, r, refl)

  move-Quiet :
      (q : ParserState) (e : Engine) (t : Terminal) (v : Text)
      → is_outer q ≡ true
      → is_tool_terminal s.config t ≡ false
      → Outer e
      → recovers_nothing e ≡ true
      → Quiet (follow s e (text_move q) t v)
  unfolding follow apply_transition run_transition emit_events has_start
  move-Quiet q e t v qo other o r = rw other (
    record {
      free = ground (arith, o.free);
      outer = ground (arith, o.free);
      unbuffered = ground (arith, o.free, o.unbuffered);
    },
    ground (arith, o.free),
    ground (arith, o.free, o.outer),
  )

  recovery-Quiet :
      (e : Engine) (t : Terminal) (v : Text)
      → e.state ≡ content
      → is_tool_terminal s.config t ≡ true
      → Outer e
      → recovers_nothing e ≡ true
      → Quiet (follow s e recovery t v)
  unfolding has_start
  recovery-Quiet e t v st tool o r = elim (Bool-cases e.skip_tool_parsing) [
    | inl skips ↦
        rw
          (
            follow_skips thinking has_drops named resolved e t v skips tool,
            skip_text thinking has_drops named resolved e v st,
          )
          (o, r, refl)
    | inr goes_on ↦
        rw (follow_emits thinking has_drops named resolved e t v goes_on o.free r)
          (emit-Quiet e v o r)
  ]

  terminal-Quiet :
      (e : Engine) (t : Terminal) (v : Text)
      → is_unwrapped t ≡ true
      → Outer e
      → recovers_nothing e ≡ true
      → Quiet (on_terminal s e t v)
  unfolding dispatch
  terminal-Quiet e t v u o r =
      rw (on_terminal_dispatches thinking has_drops named resolved e t v o)
        (elim (outer_transition thinking e.state t o.outer u) [
          | inl nothing ↦ rw (nothing, no_drop has_drops t u) (emit-Quiet e v o r)
          | inr (inl (st, tr, tool)) ↦ rw tr (recovery-Quiet e t v st tool o r)
          | inr (inr (q, qo, tr, other)) ↦ rw tr (move-Quiet q e t v qo other o r)
        ])

  token-Quiet :
      (is_text : Bool) (e : Engine) (tok : LexToken)
      → IsUnwrapped tok
      → Outer e
      → recovers_nothing e ≡ true
      → Quiet (process_lex_token s is_text e tok)
  unfolding process_lex_token on_content has_start
  token-Quiet true e tok u o r = elim (Bool-cases (is_empty tok.value)) [
    | inl empty ↦ rw empty (o, r, refl)
    | inr full ↦ rw full (emit-Quiet e tok.value o r)
  ]
  token-Quiet false e tok u o r = terminal-Quiet e tok.terminal tok.value u o r

  tokens-Quiet :
      (had_ids : Bool) (e : Engine) (tokens : List LexToken)
      → All IsUnwrapped tokens
      → Outer e
      → recovers_nothing e ≡ true
      → has_start (process_tokens s had_ids e tokens).1 ≡ false
  unfolding process_tokens has_start
  tokens-Quiet had_ids e [] u o r = refl
  tokens-Quiet had_ids e (tok ∷ tokens) u o r =
      let is_text = is_content tok.terminal || had_ids && named tok.terminal in
      let m = process_lex_token s is_text e tok in
      let (o', r', quiet) = token-Quiet is_text e tok u.0 o r in
      ground (
        arith,
        has_start-append m.1 (process_tokens s had_ids m.0 tokens).1,
        tokens-Quiet had_ids m.0 tokens u.1 o' r',
      )

  -- With the tables of DeepSeek V4, from an engine in content or in a foreign block, with no
  -- hold and no buffered arguments, for tokens other than those of thinking, of a wrapper's
  -- start and of dropped tokens: if the request suppresses tool calls or declares no tools, the
  -- events and those of `finish` are all text, and their texts, put one after the other, are
  -- the values of the tokens.
  pub undeclared_stay_text :
      (had_ids : Bool) (e : Engine) (tokens : List LexToken)
      → Outer e
      → All IsUnwrapped tokens
      → recovers_nothing e ≡ true
      → let (e', events) = process_tokens s had_ids e tokens in
        let (e'', last) = finish_engine s e' in
        (texts (events ++ last) ≡ values tokens) × (is_all_text (events ++ last) ≡ true)
  undeclared_stay_text had_ids e tokens o u r =
      let (t, only, left) =
        orphans_released thinking has_drops named resolved had_ids e tokens o u
          (tokens-Quiet had_ids e tokens u o r) in
      (t, only)
