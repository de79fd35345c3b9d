-- ===== src/Parser/Holds.antt =====
-- How much of a name a hold buffers (`_can_grow_into_declared_name`,
-- patches/streaming-parser-engine.dsml-orphan.py).
use mathlib.Core.List.{append_assoc, append-nil}
use deepseek_v4_flash_mi300x.Prelude.{
  ℕ, ◌≤◌, ◌≡◌, ◌⊎◌, inl, inr, refl, Bool, true, false, not, ◌&&◌, ◌||◌, Option, none, some, List,
  [], ◌∷◌, ◌++◌, length, max, if◌then◌else◌, is_empty, Bool-cases, arith,
}
use deepseek_v4_flash_mi300x.Parser.{
  Text, EventType, SemanticEvent, ParserState, content, message_header, tool_args, Terminal,
  Transition, Setup, Engine, Emitted, is_naming, starts_with, any_starts_with, join, is_header,
}
use deepseek_v4_flash_mi300x.Parser.Args.{
  flush_safe_args, flush_all, classify_char, feed_args_char, feed_args_text,
}
use deepseek_v4_flash_mi300x.Parser.Transitions.{
  run_transition, emit_between, emit_classified, emit_in, clear_hold, abort_hold, hold_text,
  can_grow_into_declared_name, emit_for_state, on_content, begin_hold, commit_hold, is_declared,
  resolve_hold, recovers_nothing, apply_transition, skip_terminal, ends_reasoning, emit_skipped,
  is_tool_terminal, follow, dispatch, is_drop, ends_hold, end_hold, on_terminal,
}
use deepseek_v4_flash_mi300x.Parser.Feed.{
  LexToken, LexerInput, pre_lexed_terminal, text_piece, Lexing, is_content, process_lex_token,
  process_tokens, process_lex_tokens, process_text, note_ids, process_item, process_scanner_items,
  process_scanned, is_plain, feed_plain, feed_scanned, feed,
}
pub mod Streams

abbrev pub longest_of : List Text → ℕ
longest_of [] = 0
longest_of (name ∷ names) = max (length name) (longest_of names)

-- the length of the longest declared name
abbrev pub longest : Option (List Text) → ℕ
longest none = 0
longest (some names) = longest_of names

starts_with-le : (name t : Text) → starts_with name t ≡ true → length t ≤ length name
unfolding starts_with
starts_with-le name [] h = omega arith
starts_with-le [] (d ∷ ds) h = ground arith
starts_with-le (c ∷ cs) (d ∷ ds) h = ground (arith, starts_with-le cs ds)

any_starts_with-le :
    (names : List Text) (t : Text) → any_starts_with names t ≡ true → length t ≤ longest_of names
unfolding any_starts_with
any_starts_with-le [] t h = ground arith
any_starts_with-le (name ∷ names) t h =
    ground (arith, starts_with-le name t, any_starts_with-le names t)

can_grow-le :
    (o : Option (List Text)) (t : Text)
    → can_grow_into_declared_name o t ≡ true
    → length t ≤ longest o
unfolding can_grow_into_declared_name
can_grow-le none t h = ground arith
can_grow-le (some names) t h = any_starts_with-le names t h

join-snoc : (ts : List Text) (t : Text) → join (ts ++ t ∷ []) ≡ join ts ++ t
unfolding join
join-snoc [] t = append-nil t
join-snoc (u ∷ ts) t = rw (join-snoc ts t, append_assoc)

-- The declared names are those, and the held name is no longer than the longest of them.
pub record Short (names : Option (List Text)) (e : Engine) : Type 0 where
  pub declared : e.allowed_tool_names ≡ names
  pub short : length (join e.held_name) ≤ longest names

module _ (names : Option (List Text)) (s : Setup) where
  flush_all-Short : (e : Engine) → Short names e → Short names (flush_all e).0
  unfolding flush_all flush_safe_args
  flush_all-Short e h = record {
    declared = ground (arith, h.declared);
    short = ground (arith, h.short);
  }

  feed_args_char-Short : (e : Engine) (ch : ℕ) → Short names e → Short names (feed_args_char e ch).0
  unfolding feed_args_char classify_char flush_all flush_safe_args
  feed_args_char-Short e ch h = record {
    declared = ground (arith, h.declared);
    short = ground (arith, h.short);
  }

  feed_args_text-Short :
      (e : Engine) (text : Text) → Short names e → Short names (feed_args_text e text).0
  unfolding feed_args_text
  feed_args_text-Short e [] h = h
  feed_args_text-Short e (ch ∷ text) h =
      feed_args_text-Short (feed_args_char e ch).0 text (feed_args_char-Short e ch h)

  emit_classified-Short :
      (o : Option EventType) (e : Engine) (text : Text)
      → Short names e
      → Short names (emit_classified o e text).0
  unfolding emit_classified emit_between
  emit_classified-Short none e text h = record {
    declared = ground (arith, h.declared);
    short = ground (arith, h.short);
  }
  emit_classified-Short (some t) e text h = h

  emit_in-Short :
      (st : ParserState) (e : Engine) (text : Text)
      → Short names e
      → Short names (emit_in st s e text).0
  unfolding emit_in
  emit_in-Short message_header e text h = record { declared = h.declared; short = h.short }
  emit_in-Short tool_args e text h = elim (Bool-cases s.config.tool_args_json) [
    | inl json ↦ rw json (feed_args_text-Short e text h)
    | inr raw ↦ rw raw h
  ]
  emit_in-Short st e text h = emit_classified-Short (s.config.content_events st) e text h

  pub abort_hold-Short :
      (e : Engine) (raw : Text) → Short names e → Short names (abort_hold s e raw).0
  unfolding abort_hold clear_hold join
  abort_hold-Short e raw h =
      emit_in-Short e.held_prior_state _ raw (record { declared = h.declared; short = omega arith })

  hold_text-Short :
      (e : Engine) (text : Text)
      → can_grow_into_declared_name e.allowed_tool_names (join e.held_name ++ text) ≡ true
      → Short names e
      → Short names (hold_text e text)
  unfolding hold_text
  hold_text-Short e text grows h = record {
    declared = h.declared;
    short =
        rw (join-snoc e.held_name text, ← h.declared)
          (can_grow-le e.allowed_tool_names (join e.held_name ++ text) grows);
  }

  pub emit_for_state-Short :
      (e : Engine) (text : Text) → Short names e → Short names (emit_for_state s e text).0
  unfolding emit_for_state
  emit_for_state-Short e text h = elim (Bool-cases (e.hold_active && is_naming e.state)) [
    | inr outside ↦ rw outside (emit_in-Short e.state e text h)
    | inl naming ↦
        elim (Bool-cases
          (can_grow_into_declared_name e.allowed_tool_names (join e.held_name ++ text))) [
            | inl grows ↦ rw (naming, grows) (hold_text-Short e text grows h)
            | inr stuck ↦ rw (naming, stuck) (abort_hold-Short e (join e.held_raw ++ text) h)
          ]
  ]

  run_transition-Short :
      (e : Engine) (tr : Transition) (v : Text)
      → Short names e
      → Short names (run_transition e tr v).0
  unfolding run_transition
  run_transition-Short e tr v h = record { declared = h.declared; short = h.short }

  begin_hold-Short :
      (e : Engine) (tr : Transition) (v : Text) → Short names e → Short names (begin_hold e tr v).0
  unfolding begin_hold run_transition join
  begin_hold-Short e tr v h = record { declared = h.declared; short = omega arith }

  resolve_hold-Short :
      (e : Engine) (tr : Transition) (v : Text)
      → Short names e
      → Short names (resolve_hold s e tr v).0
  unfolding resolve_hold commit_hold clear_hold join
  resolve_hold-Short e tr v h =
      elim (Bool-cases (is_declared e.allowed_tool_names (join e.held_name))) [
        | inl declared ↦
            rw declared
              (run_transition-Short _ tr v (record { declared = h.declared; short = omega arith }))
        | inr other ↦ rw other (abort_hold-Short e (join e.held_raw ++ v) h)
      ]

  pub branch-Short :
      (b : Bool) (m m' : Emitted)
      → Short names m.0
      → Short names m'.0
      → Short names (if b then m else m').0
  branch-Short true m m' h h' = h
  branch-Short false m m' h h' = h'

  apply_transition-Short :
      (e : Engine) (tr : Transition) (v : Text)
      → Short names e
      → Short names (apply_transition s e tr v).0
  unfolding apply_transition
  apply_transition-Short e tr v h = branch-Short e.hold_active _ _ (resolve_hold-Short e tr v h) (
      branch-Short tr.validate_tool_name _ _
        (branch-Short (recovers_nothing e) _ _ (emit_for_state-Short e v h)
          (begin_hold-Short e tr v h))
        (run_transition-Short e tr v h))

  emit_skipped-Short :
      (o : Option EventType) (e : Engine) (v : Text)
      → Short names e
      → Short names (emit_skipped o e v).0
  emit_skipped-Short none e v h = h
  emit_skipped-Short (some t) e v h = h

  follow-Short :
      (e : Engine) (tr : Transition) (t : Terminal) (v : Text)
      → Short names e
      → Short names (follow s e tr t v).0
  unfolding follow skip_terminal
  follow-Short e tr t v h =
      let moved : Short names (record e { state = content }) = record {
        declared = h.declared;
        short = h.short;
      } in
      branch-Short (e.skip_tool_parsing && is_tool_terminal s.config t) _ _
        (branch-Short (is_header e.state) _ _ (record { declared = h.declared; short = h.short })
          (branch-Short (ends_reasoning tr.events) _ _ moved
            (emit_skipped-Short (s.config.content_events e.state) e v h)))
        (branch-Short (tr.skip_in_token_id_mode && e.ever_had_token_ids) _ _
          (emit_for_state-Short e v h) (apply_transition-Short e tr v h))

  dispatch-Short :
      (o : Option Transition) (e : Engine) (t : Terminal) (v : Text)
      → Short names e
      → Short names (dispatch o s e t v).0
  unfolding dispatch
  dispatch-Short none e t v h =
      branch-Short (s.has_drops && is_drop t) _ _ h (emit_for_state-Short e v h)
  dispatch-Short (some tr) e t v h = follow-Short e tr t v h

  pub on_terminal-Short :
      (e : Engine) (t : Terminal) (v : Text) → Short names e → Short names (on_terminal s e t v).0
  unfolding on_terminal end_hold
  on_terminal-Short e t v h =
      let tr = s.config.transitions e.state t in
      branch-Short (ends_hold tr s e t) _ _
        (dispatch-Short _ _ t v (abort_hold-Short e (join e.held_raw) h))
        (dispatch-Short tr e t v h)
