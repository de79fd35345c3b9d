-- ===== src/Parser/Orphans/Terminals.antt =====
-- One terminal: it goes out as text, a hold begins or ends, or a recovered tool call starts
-- (`_on_terminal`, patches/streaming-parser-engine.dsml-orphan.py).
use mathlib.Core.List.{append-nil}
use deepseek_v4_flash_mi300x.Prelude.{
  ℕ, ◌≡◌, ◌⊎◌, inl, inr, refl, ◌∙◌, Bool, true, false, ◌&&◌, none, some, [], ◌∷◌, ◌++◌, Bool-cases,
  arith,
}
use deepseek_v4_flash_mi300x.Parser.{
  Text, text_chunk, tool_call_start, event, ParserState, content, tool_args, foreign_block,
  Terminal, Transition, invoke_prefix, invoke_name_end, foreign_start, foreign_end, Setup, Engine,
  join,
}
use deepseek_v4_flash_mi300x.Parser.Transitions.{
  run_transition, emit_events, clear_hold, abort_hold, emit_for_state, begin_hold, commit_hold,
  resolve_hold, recovers_nothing, apply_transition, skip_terminal, follow, dispatch, end_hold,
  on_terminal, is_declared, is_tool_terminal, is_drop,
}
use deepseek_v4_flash_mi300x.Parser.Dsml.{
  moves, v4_transitions, v4_content_events, deepseek_v4_config,
}
use deepseek_v4_flash_mi300x.Parser.Orphans.{
  texts, has_start, is_all_text, is_unwrapped, is_outer, unreleased, Outer, Holding, Waiting,
  Released, Kept, setup,
}
use deepseek_v4_flash_mi300x.Parser.Orphans.Tokens.{
  has_start-append, unreleased_free, unreleased_held, Kept-append, abort-Outer, abort-Released,
  emit_plain-Released,
}

-- a foreign wrapper: its marker is text
abbrev pub text_move : ParserState → Transition
text_move st = record {
  next_state = st;
  events = text_chunk ∷ [];
  skip_in_token_id_mode = false;
  validate_tool_name = false;
}

abbrev pub recovery : Transition
recovery = record {
  next_state = ParserState.tool_name;
  events = tool_call_start ∷ [];
  skip_in_token_id_mode = false;
  validate_tool_name = true;
}

-- what a terminal can do outside tool calls
pub outer_transition :
    (thinking : Bool) (st : ParserState) (t : Terminal)
    → is_outer st ≡ true
    → is_unwrapped t ≡ true
    → (v4_transitions st t ≡ none)
      ⊎ ((st ≡ content)
          × (v4_transitions st t ≡ some recovery)
          × (is_tool_terminal (deepseek_v4_config thinking) t ≡ true))
      ⊎ ((q : ParserState) × (is_outer q ≡ true)
          × (v4_transitions st t ≡ some (text_move q))
          × (is_tool_terminal (deepseek_v4_config thinking) t ≡ false))
unfolding v4_transitions is_tool_terminal deepseek_v4_config
outer_transition thinking content invoke_prefix h u = inr (inl (refl, refl, refl))
outer_transition thinking content foreign_start h u = inr (inr (foreign_block, refl, refl, refl))
outer_transition thinking foreign_block foreign_end h u = inr (inr (content, refl, refl, refl))
outer_transition thinking st t h u = inl (ground arith)

pub no_drop : (drops : Bool) (t : Terminal) → is_unwrapped t ≡ true → (drops && is_drop t) ≡ false
no_drop drops t u = ground arith

-- inside a held name, where only its end has a transition
held_transition :
    (t : Terminal)
    → is_unwrapped t ≡ true
    → (v4_transitions ParserState.tool_name t ≡ none)
      ⊎ (v4_transitions ParserState.tool_name t ≡ moves tool_args [])
unfolding v4_transitions
held_transition invoke_name_end u = inr refl
held_transition t u = inl (ground arith)

module _ (thinking has_drops : Bool) (named : Terminal → Bool) (resolved : ℕ → Bool) where
  abbrev s : Setup
  s = setup thinking has_drops named resolved

  follow_text :
      (q : ParserState) (e : Engine) (t : Terminal) (v : Text)
      → is_outer q ≡ true
      → is_tool_terminal s.config t ≡ false
      → Outer e
      → Released (follow s e (text_move q) t v) v
  unfolding follow apply_transition run_transition emit_events texts is_all_text unreleased
  follow_text q e t v qo skip o = rw skip (
    inl (record {
      free = ground (arith, o.free);
      outer = ground (arith, o.free);
      unbuffered = ground (arith, o.free, o.unbuffered);
    }),
    ground (arith, o.free, o.outer, append-nil v),
    ground (arith, o.free, o.outer),
  )

  begin_hold-Released :
      (e : Engine) (v : Text)
      → e.state ≡ content
      → e.skip_tool_parsing ≡ false
      → Outer e
      → Released (begin_hold e recovery v) v
  unfolding begin_hold run_transition emit_events texts is_all_text unreleased has_start join
  begin_hold-Released e v st skip o = (
    inr (record {
      active = refl;
      state = refl;
      prior = st;
      starts = ground (arith, o.unbuffered, st);
      kept = skip;
      unbuffered = ground (arith, o.unbuffered);
    }),
    append-nil v,
    refl,
  )

  pub skip_text :
      (e : Engine) (v : Text)
      → e.state ≡ content
      → skip_terminal s e recovery v ≡ (e, event text_chunk v e.tool_index ∷ [])
  unfolding skip_terminal deepseek_v4_config v4_content_events
  skip_text e v st = ground arith

  pub follow_skips :
      (e : Engine) (t : Terminal) (v : Text)
      → e.skip_tool_parsing ≡ true
      → is_tool_terminal s.config t ≡ true
      → follow s e recovery t v ≡ skip_terminal s e recovery v
  unfolding follow
  follow_skips e t v h tool = ground arith

  pub follow_emits :
      (e : Engine) (t : Terminal) (v : Text)
      → e.skip_tool_parsing ≡ false
      → e.hold_active ≡ false
      → recovers_nothing e ≡ true
      → follow s e recovery t v ≡ emit_for_state s e v
  unfolding follow apply_transition
  follow_emits e t v h free nothing = ground arith

  follow_holds :
      (e : Engine) (t : Terminal) (v : Text)
      → e.skip_tool_parsing ≡ false
      → e.hold_active ≡ false
      → recovers_nothing e ≡ false
      → follow s e recovery t v ≡ begin_hold e recovery v
  unfolding follow apply_transition
  follow_holds e t v h free something = ground arith

  follow-Released :
      (e : Engine) (t : Terminal) (v : Text)
      → e.state ≡ content
      → is_tool_terminal s.config t ≡ true
      → Outer e
      → Released (follow s e recovery t v) v
  unfolding texts is_all_text
  follow-Released e t v st tool o = elim (Bool-cases e.skip_tool_parsing) [
    | inl skips ↦
        rw (follow_skips e t v skips tool, skip_text e v st)
          (inl o, rw (unreleased_free e o.free) (append-nil _ ∙ append-nil v), refl)
    | inr goes_on ↦ elim (Bool-cases (recovers_nothing e)) [
      | inl nothing ↦
          rw (follow_emits e t v goes_on o.free nothing)
            (emit_plain-Released thinking has_drops named resolved e v o)
      | inr something ↦
          rw (follow_holds e t v goes_on o.free something) (begin_hold-Released e v st goes_on o)
    ]
  ]

  -- a terminal outside tool calls
  dispatch-Released :
      (e : Engine) (t : Terminal) (v : Text)
      → Outer e
      → is_unwrapped t ≡ true
      → Released (dispatch (v4_transitions e.state t) s e t v) v
  unfolding dispatch
  dispatch-Released e t v o u = elim (outer_transition thinking e.state t o.outer u) [
    | inl nothing ↦
        rw (nothing, no_drop has_drops t u)
          (emit_plain-Released thinking has_drops named resolved e v o)
    | inr (inl (st, tr, tool)) ↦ rw tr (follow-Released e t v st tool o)
    | inr (inr (q, qo, tr, other)) ↦ rw tr (follow_text q e t v qo other o)
  ]

  -- the name of the held call is complete
  commit_started :
      (e : Engine) (tr : Transition) (v : Text)
      → Holding e
      → has_start (commit_hold e tr v).1 ≡ true
  unfolding commit_hold
  commit_started e tr v h =
      let (e', events) = run_transition (clear_hold e) tr v in
      ground (arith, h.starts, has_start-append e.held_events events)

  resolve-Kept :
      (e : Engine) (tr : Transition) (v : Text)
      → Holding e
      → Kept (resolve_hold s e tr v) (unreleased e ++ v)
  unfolding resolve_hold
  resolve-Kept e tr v h = elim (Bool-cases (is_declared e.allowed_tool_names (join e.held_name))) [
    | inl declared ↦ rw declared (inl (commit_started e tr v h))
    | inr other ↦
        rw (other, unreleased_held e h.active)
          (inr (abort-Released thinking has_drops named resolved e (join e.held_raw ++ v) h))
  ]

  name_end_resolves :
      (e : Engine) (t : Terminal) (v : Text)
      → Holding e
      → v4_transitions ParserState.tool_name t ≡ moves tool_args []
      → on_terminal s e t v
        ≡ resolve_hold s e
            (record {
              next_state = tool_args;
              events = [];
              skip_in_token_id_mode = false;
              validate_tool_name = false;
            })
            v
  unfolding on_terminal dispatch follow apply_transition deepseek_v4_config
  name_end_resolves e t v h tr = ground (arith, h.active, h.state, h.kept, tr)

  other_ends_hold :
      (e : Engine) (t : Terminal) (v : Text)
      → Holding e
      → is_unwrapped t ≡ true
      → v4_transitions ParserState.tool_name t ≡ none
      → on_terminal s e t v ≡ end_hold s e t v
  unfolding on_terminal deepseek_v4_config
  other_ends_hold e t v h u tr = ground (arith, h.active, h.state, no_drop has_drops t u, tr)

  end_hold-Kept :
      (e : Engine) (t : Terminal) (v : Text)
      → Holding e
      → is_unwrapped t ≡ true
      → Kept (end_hold s e t v) (unreleased e ++ v)
  unfolding end_hold deepseek_v4_config
  end_hold-Kept e t v h u =
      let (e', events) = abort_hold s e (join e.held_raw) in
      let o = abort-Outer thinking has_drops named resolved e (join e.held_raw) h in
      let m = dispatch (v4_transitions e'.state t) s e' t v in
      rw (unreleased_held e h.active) (
        Kept-append e' m.0 events m.1 (join e.held_raw) v
          (abort-Released thinking has_drops named resolved e (join e.held_raw) h)
          (rw (unreleased_free e' o.free) (inr (dispatch-Released e' t v o u))))

  pub on_terminal_dispatches :
      (e : Engine) (t : Terminal) (v : Text)
      → Outer e
      → on_terminal s e t v ≡ dispatch (v4_transitions e.state t) s e t v
  unfolding on_terminal deepseek_v4_config
  on_terminal_dispatches e t v o = ground (arith, o.free)

  pub on_terminal-Kept :
      (e : Engine) (t : Terminal) (v : Text)
      → Waiting e
      → is_unwrapped t ≡ true
      → Kept (on_terminal s e t v) (unreleased e ++ v)
  on_terminal-Kept e t v (inl o) u =
      rw (on_terminal_dispatches e t v o, unreleased_free e o.free)
        (inr (dispatch-Released e t v o u))
  on_terminal-Kept e t v (inr h) u = elim (held_transition t u) [
    | inl nothing ↦ rw (other_ends_hold e t v h u nothing) (end_hold-Kept e t v h u)
    | inr name_end ↦ rw (name_end_resolves e t v h name_end) (resolve-Kept e _ v h)
  ]
