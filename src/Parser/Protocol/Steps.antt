-- ===== src/Parser/Protocol/Steps.antt =====
-- Each method of the engine keeps to the order of the events
-- (patches/streaming-parser-engine.dsml-orphan.py).
use deepseek_v4_flash_mi300x.Prelude.{
  ℕ, ◌≡◌, inl, inr, refl, ◌∙◌, true, false, [], ◌∷◌, ◌++◌, if◌then◌else◌, Bool-cases, arith,
}
use deepseek_v4_flash_mi300x.Parser.{
  Text, EventType, event, ParserState, content, tool_args, Transition, Setup, Engine, is_header,
  message_header, join,
}
use deepseek_v4_flash_mi300x.Parser.Transitions.{
  run_transition, emit_in, clear_hold, abort_hold, hold_text, emit_for_state, begin_hold,
  commit_hold, can_grow_into_declared_name,
}
use deepseek_v4_flash_mi300x.Parser.Protocol.{
  Phase, outside, naming, in_args, read, fits, turns, lands, classes, IsDsml, read-append,
  read-emit_events,
}
use deepseek_v4_flash_mi300x.Parser.Protocol.Positions.{
  Free, Held, Inv, Keeps, Frees, Frees-Keeps, emit_classified-Free, lands-some, run_transition-Free,
}

module _ (s : Setup) (d : IsDsml s.config) where
  pub texts_at :
      (e : Engine) (st : ParserState)
      → e.state ≡ st
      → classes e.state (s.config.content_events st) ≡ true
  texts_at e st h = rw h (d.texts st)

  emit_in-Free :
      (st : ParserState) (e : Engine) (text : Text) (p : Phase) (n : ℕ)
      → e.state ≡ st
      → Free e p n
      → Frees (emit_in st s e text) p n
  unfolding emit_in read
  emit_in-Free message_header e text p n h f = (
    p,
    n,
    refl,
    record { free = f.free; fit = f.fit; index = f.index; unbuffered = f.unbuffered },
  )
  emit_in-Free tool_args e text p n h f = rw d.plain_args (
    in_args,
    n,
    ground arith,
    record { free = f.free; fit = ground arith; index = f.index; unbuffered = f.unbuffered },
  )
  emit_in-Free st e text p n h f =
      emit_classified-Free e text p n (s.config.content_events st) (texts_at e st h) f

  pub abort_hold-Free :
      (e : Engine) (raw : Text) (p : Phase) (n : ℕ) → Held e p n → Frees (abort_hold s e raw) p n
  unfolding abort_hold clear_hold
  abort_hold-Free e raw p n h = emit_in-Free e.held_prior_state _ raw p n refl (record {
    free = refl;
    fit = rw (h.prior, h.before);
    index = h.prior_index;
    unbuffered = h.unbuffered;
  })

  hold_text-Held :
      (e : Engine) (text : Text) (p : Phase) (n : ℕ) → Held e p n → Held (hold_text e text) p n
  unfolding hold_text read
  hold_text-Held e text p n h = record {
    active = h.active;
    state = h.state;
    prior = h.prior;
    before = h.before;
    prior_index = h.prior_index;
    opens = ground (
      arith,
      h.opens,
      read-append false outside naming n e.tool_index e.held_events
          (event EventType.tool_name text e.tool_index ∷ []),
    );
    kept = h.kept;
    unbuffered = h.unbuffered;
  }

  pub emit_for_state_free :
      (e : Engine) (text : Text)
      → e.hold_active ≡ false
      → emit_for_state s e text ≡ emit_in e.state s e text
  unfolding emit_for_state
  emit_for_state_free e text h = ground arith

  emit_for_state_grows :
      (e : Engine) (text : Text) (p : Phase) (n : ℕ)
      → Held e p n
      → can_grow_into_declared_name e.allowed_tool_names (join e.held_name ++ text) ≡ true
      → emit_for_state s e text ≡ (hold_text e text, [])
  unfolding emit_for_state
  emit_for_state_grows e text p n h g = ground (arith, h.active, h.state)

  emit_for_state_stuck :
      (e : Engine) (text : Text) (p : Phase) (n : ℕ)
      → Held e p n
      → can_grow_into_declared_name e.allowed_tool_names (join e.held_name ++ text) ≡ false
      → emit_for_state s e text ≡ abort_hold s e (join e.held_raw ++ text)
  unfolding emit_for_state
  emit_for_state_stuck e text p n h g = ground (arith, h.active, h.state)

  pub emit_for_state-Free :
      (e : Engine) (text : Text) (p : Phase) (n : ℕ)
      → Free e p n
      → Frees (emit_for_state s e text) p n
  emit_for_state-Free e text p n f =
      rw (emit_for_state_free e text f.free) (emit_in-Free e.state e text p n refl f)

  pub emit_for_state-Keeps :
      (e : Engine) (text : Text) (p : Phase) (n : ℕ)
      → Inv e p n
      → Keeps (emit_for_state s e text) p n
  unfolding read
  emit_for_state-Keeps e text p n (inl f) = Frees-Keeps _ p n (emit_for_state-Free e text p n f)
  emit_for_state-Keeps e text p n (inr h) =
      elim (Bool-cases
        (can_grow_into_declared_name e.allowed_tool_names (join e.held_name ++ text))) [
          | inl grows ↦
              rw (emit_for_state_grows e text p n h grows)
                (p, n, refl, inr (hold_text-Held e text p n h))
          | inr stuck ↦
              rw (emit_for_state_stuck e text p n h stuck)
                (Frees-Keeps _ p n (abort_hold-Free e (join e.held_raw ++ text) p n h))
        ]

  -- a hold begins only where the transition is sound and leads from content to a name
  pub begin_hold-Held :
      (e : Engine) (tr : Transition) (value : Text) (p : Phase) (n : ℕ)
      → lands (turns outside tr.events) tr.next_state ≡ true
      → e.state ≡ content
      → tr.next_state ≡ ParserState.tool_name
      → e.skip_tool_parsing ≡ false
      → Free e p n
      → Held (begin_hold e tr value).0 p n
  unfolding begin_hold run_transition read
  begin_hold-Held e tr value p n sound st next skip f =
      let (q, q_e, q_fits) = lands-some (turns outside tr.events) tr.next_state sound in
      record {
        active = refl;
        state = next;
        prior = st;
        before = ground arith;
        prior_index = f.index;
        opens = ground (
          arith,
          read-emit_events (is_header e.state)
              (if is_header e.state then e.message_header_buffer else []) value outside q
              e.tool_index tr.events q_e,
        );
        kept = skip;
        unbuffered = ground (arith, f.unbuffered);
      }

  pub commit_hold-Free :
      (e : Engine) (tr : Transition) (value : Text) (p : Phase) (n : ℕ)
      → ((q : Phase) → fits e.state q ≡ true → lands (turns q tr.events) tr.next_state ≡ true)
      → Held e p n
      → Frees (commit_hold e tr value) p n
  unfolding commit_hold clear_hold
  commit_hold-Free e tr value p n sound h =
      let (q, k, taken, f) =
        run_transition-Free (clear_hold e) tr value naming e.tool_index sound (record {
          free = refl;
          fit = rw h.state refl;
          index = refl;
          unbuffered = h.unbuffered;
        }) in
      (
        q,
        k,
        rw h.before (
            read-append false outside naming n e.tool_index e.held_events
              (run_transition (clear_hold e) tr value).1 h.opens
            ∙ taken),
        f,
      )
