-- ===== src/Parser/Orphans/Streams.antt =====
-- Tokens to the end of the stream: what is not part of a recovered call is text again
-- (patches/streaming-parser-engine.dsml-orphan.py).
use mathlib.Core.List.{append_assoc, append-nil}
use deepseek_v4_flash_mi300x.Prelude.{
  ℕ, ◌≡◌, inl, inr, refl, ◌∙◌, sym, ap, Bool, true, false, ◌&&◌, ◌||◌, List, [], ◌∷◌, ◌++◌, All,
  arith,
}
use deepseek_v4_flash_mi300x.Parser.{Text, Terminal, Setup, Engine, join}
use deepseek_v4_flash_mi300x.Parser.Transitions.{abort_hold, on_content}
use deepseek_v4_flash_mi300x.Parser.Feed.{
  LexToken, is_content, process_lex_token, process_tokens, flush_args, close_state, finish_hold,
  finish_engine,
}
use deepseek_v4_flash_mi300x.Parser.Orphans.{
  texts, has_start, is_all_text, values, is_unwrapped, unreleased, Outer, Holding, Waiting, Kept,
  setup,
}
use deepseek_v4_flash_mi300x.Parser.Orphans.Tokens.{
  texts-append, is_all_text-append, unreleased_free, unreleased_held, Kept-append, started-append,
  abort-Outer, abort-Released, emit-Released,
}
use deepseek_v4_flash_mi300x.Parser.Orphans.Terminals.{on_terminal-Kept}

abbrev pub IsUnwrapped : LexToken → Type 0
IsUnwrapped tok = is_unwrapped tok.terminal ≡ true

module _ (thinking has_drops : Bool) (named : Terminal → Bool) (resolved : ℕ → Bool) where
  abbrev s : Setup
  s = setup thinking has_drops named resolved

  on_content-Kept :
      (e : Engine) (text : Text) → Waiting e → Kept (on_content s e text) (unreleased e ++ text)
  unfolding on_content texts is_all_text
  on_content-Kept e [] w = inr (w, sym (append-nil _), refl)
  on_content-Kept e (c ∷ text) w =
      inr (emit-Released thinking has_drops named resolved e (c ∷ text) w)

  token-Kept :
      (is_text : Bool) (e : Engine) (tok : LexToken)
      → Waiting e
      → IsUnwrapped tok
      → Kept (process_lex_token s is_text e tok) (unreleased e ++ tok.value)
  unfolding process_lex_token
  token-Kept true e tok w u = on_content-Kept e tok.value w
  token-Kept false e tok w u =
      on_terminal-Kept thinking has_drops named resolved e tok.terminal tok.value w u

  tokens-Kept :
      (had_ids : Bool) (e : Engine) (tokens : List LexToken)
      → Waiting e
      → All IsUnwrapped tokens
      → Kept (process_tokens s had_ids e tokens) (unreleased e ++ values tokens)
  unfolding process_tokens texts is_all_text
  tokens-Kept had_ids e [] w u = inr (w, sym (append-nil _), refl)
  tokens-Kept had_ids e (tok ∷ tokens) w u =
      let is_text = is_content tok.terminal || had_ids && named tok.terminal in
      let m = process_lex_token s is_text e tok in
      let m' = process_tokens s had_ids m.0 tokens in
      elim (token-Kept is_text e tok w u.0) [
        | inl started ↦ started-append m'.0 m.1 m'.1 _ started
        | inr released ↦ rw (← append_assoc (unreleased e) tok.value (values tokens)) (
            Kept-append m.0 m'.0 m.1 m'.1 (unreleased e ++ tok.value) (values tokens) released
              (tokens-Kept had_ids m.0 tokens released.0 u.1))
      ]

  -- what `finish` leaves of a hold
  finish_nothing : (e : Engine) → Outer e → finish_engine s e ≡ (e, [])
  unfolding finish_engine finish_hold flush_args close_state
  finish_nothing e o = ground (arith, o.free, o.outer, o.unbuffered)

  flush_nothing : (e : Engine) → Outer e → flush_args e ≡ (e, [])
  unfolding flush_args
  flush_nothing e o = ground (arith, o.unbuffered)

  close_nothing : (e : Engine) → Outer e → close_state e.state e ≡ (e, [])
  unfolding close_state
  close_nothing e o = ground (arith, o.outer)

  finish_held : (e : Engine) → Holding e → finish_engine s e ≡ abort_hold s e (join e.held_raw)
  unfolding finish_engine finish_hold
  finish_held e h =
      let m = abort_hold s e (join e.held_raw) in
      let o = abort-Outer thinking has_drops named resolved e (join e.held_raw) h in
      ground (arith, h.active, flush_nothing m.0 o, close_nothing m.0 o, append-nil m.1)

  -- the end of the stream releases what is held
  finish-Released :
      (e : Engine)
      → Waiting e
      → let m = finish_engine s e in
        Outer m.0 × (texts m.1 ≡ unreleased e) × (is_all_text m.1 ≡ true)
  unfolding texts is_all_text
  finish-Released e (inl o) = rw (finish_nothing e o) (o, rw (unreleased_free e o.free) refl, refl)
  finish-Released e (inr h) =
      let m = abort_hold s e (join e.held_raw) in
      let o = abort-Outer thinking has_drops named resolved e (join e.held_raw) h in
      let (w, t, only) = abort-Released thinking has_drops named resolved e (join e.held_raw) h in
      rw (finish_held e h) (
        o,
        rw (unreleased_held e h.active) (
            sym (append-nil (texts m.1))
            ∙ (ap (λ r. texts m.1 ++ r) (sym (unreleased_free m.0 o.free)) ∙ t)),
        only,
      )

  -- With the tables of DeepSeek V4, from an engine in content or in a foreign block, with no
  -- hold and no buffered arguments, for tokens other than those of thinking, of a wrapper's
  -- start and of dropped tokens: if no tool call is started, the events and those of `finish`
  -- are all text, and their texts, put one after the other, are the values of the tokens; the
  -- engine is again in content or in a foreign block, with no hold and no buffered arguments.
  pub orphans_released :
      (had_ids : Bool) (e : Engine) (tokens : List LexToken)
      → Outer e
      → All IsUnwrapped tokens
      → has_start (process_tokens s had_ids e tokens).1 ≡ false
      → let (e', events) = process_tokens s had_ids e tokens in
        let (e'', last) = finish_engine s e' in
        (texts (events ++ last) ≡ values tokens) × (is_all_text (events ++ last) ≡ true) × Outer e''
  orphans_released had_ids e tokens o u quiet =
      let m = process_tokens s had_ids e tokens in
      elim (tokens-Kept had_ids e tokens (inl o) u) [
        | inl started ↦ absurd (ground arith)
        | inr (w, t, only) ↦
            let (left, t', only') = finish-Released m.0 w in
            (
              rw (texts-append, t') (t ∙ ap (λ r. r ++ values tokens) (unreleased_free e o.free)),
              ground (arith, is_all_text-append m.1 (finish_engine s m.0).1),
              left,
            )
      ]
