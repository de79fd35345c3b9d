-- ===== src/Parser/Protocol/Terminals.antt =====
-- A terminal keeps to the order of the events, whatever it does to a hold
-- (`_on_terminal`, patches/streaming-parser-engine.dsml-orphan.py).
use deepseek_v4_flash_mi300x.Prelude.{
  ℕ, ◌≡◌, inl, inr, refl, ◌∙◌, true, false, ◌&&◌, Option, none, some, List, ◌++◌, Bool-cases, arith,
}
use deepseek_v4_flash_mi300x.Parser.{
  Text, EventType, SemanticEvent, ParserState, content, reasoning, message_header, tool_preamble,
  tool_args, tool_between, foreign_block, Terminal, Transition, ParserEngineConfig, Setup, Engine,
  is_tool_state, is_header, join,
}
use deepseek_v4_flash_mi300x.Parser.Transitions.{
  ends_reasoning, emit_skipped, emit_for_state, begin_hold, resolve_hold, abort_hold,
  recovers_nothing, apply_transition, is_tool_terminal, skip_terminal, follow, dispatch, ends_hold,
  is_drop, end_hold, on_terminal, is_declared, run_transition,
}
use deepseek_v4_flash_mi300x.Parser.Protocol.{
  Phase, outside, read, fits, turns, lands, classes, IsDsml, read-append,
}
use deepseek_v4_flash_mi300x.Parser.Protocol.Positions.{
  Free, Held, Inv, Keeps, Frees, Frees-Keeps, text_phase, run_transition-Free,
}
use deepseek_v4_flash_mi300x.Parser.Protocol.Steps.{
  texts_at, abort_hold-Free, emit_for_state-Keeps, begin_hold-Held, commit_hold-Free,
}

-- a terminal whose transition leads to a tool's state is one of the tool's terminals
tool_terminal :
    (c : ParserEngineConfig) (t : Terminal) (st : ParserState) (tr : Transition)
    → c.transitions st t ≡ some tr
    → is_tool_state tr.next_state ≡ true
    → is_tool_terminal c t ≡ true
unfolding is_tool_terminal
tool_terminal c t content tr e h = rw e (ground arith)
tool_terminal c t reasoning tr e h = rw e (ground arith)
tool_terminal c t message_header tr e h = rw e (ground arith)
tool_terminal c t tool_preamble tr e h = rw e (ground arith)
tool_terminal c t ParserState.tool_name tr e h = rw e (ground arith)
tool_terminal c t tool_args tr e h = rw e (ground arith)
tool_terminal c t tool_between tr e h = rw e (ground arith)
tool_terminal c t foreign_block tr e h = rw e (ground arith)

emit_skipped-Free :
    (e : Engine) (value : Text) (p : Phase) (n : ℕ) (o : Option EventType)
    → classes e.state o ≡ true
    → Free e p n
    → Frees (emit_skipped o e value) p n
unfolding read
emit_skipped-Free e value p n none h f = (p, n, refl, f)
emit_skipped-Free e value p n (some t) h f = (
  text_phase e.state (some t) p,
  n,
  ground arith,
  record { free = f.free; fit = ground arith; index = f.index; unbuffered = f.unbuffered },
)

module _ (s : Setup) (d : IsDsml s.config) (e : Engine) (t : Terminal) (value : Text) where
  skip_terminal-Free :
      (tr : Transition) (p : Phase) (n : ℕ)
      → s.config.transitions e.state t ≡ some tr
      → Free e p n
      → Frees (skip_terminal s e tr value) p n
  unfolding skip_terminal read
  skip_terminal-Free tr p n tr_e f = elim (Bool-cases (is_header e.state)) [
    | inl header ↦ rw header (
      p,
      n,
      ground arith,
      record { free = f.free; fit = ground arith; index = f.index; unbuffered = f.unbuffered },
    )
    | inr other ↦ elim (Bool-cases (ends_reasoning tr.events)) [
      | inl ends ↦
          let p_e = d.ending e.state t p tr tr_e ends f.fit in
          rw (other, ends)
            (
              p,
              n,
              ground arith,
              record {
                free = f.free;
                fit = ground arith;
                index = f.index;
                unbuffered = f.unbuffered;
              },
            )
      | inr goes_on ↦
          rw (other, goes_on)
            (emit_skipped-Free e value p n (s.config.content_events e.state)
              (texts_at s d e e.state refl) f)
    ]
  ]

  module _ (tr : Transition) (tr_e : s.config.transitions e.state t ≡ some tr) where
    sound_here :
        (q : Phase) → fits e.state q ≡ true → lands (turns q tr.events) tr.next_state ≡ true
    sound_here q = d.sound e.state t q tr tr_e

    resolve_hold-Frees : (p : Phase) (n : ℕ) → Held e p n → Frees (resolve_hold s e tr value) p n
    unfolding resolve_hold
    resolve_hold-Frees p n h =
        elim (Bool-cases (is_declared e.allowed_tool_names (join e.held_name))) [
          | inl declared ↦ rw declared (commit_hold-Free s d e tr value p n sound_here h)
          | inr other ↦ rw other (abort_hold-Free s d e (join e.held_raw ++ value) p n h)
        ]

    apply_plain :
        e.hold_active ≡ false
        → tr.validate_tool_name ≡ false
        → apply_transition s e tr value ≡ run_transition e tr value
    unfolding apply_transition
    apply_plain h v = ground arith

    apply_text :
        e.hold_active ≡ false
        → tr.validate_tool_name ≡ true
        → recovers_nothing e ≡ true
        → apply_transition s e tr value ≡ emit_for_state s e value
    unfolding apply_transition
    apply_text h v r = ground arith

    apply_holding :
        e.hold_active ≡ false
        → tr.validate_tool_name ≡ true
        → recovers_nothing e ≡ false
        → apply_transition s e tr value ≡ begin_hold e tr value
    unfolding apply_transition
    apply_holding h v r = ground arith

    apply_held : e.hold_active ≡ true → apply_transition s e tr value ≡ resolve_hold s e tr value
    unfolding apply_transition
    apply_held h = ground arith

    -- with no hold: the trigger of a recovery is text or begins a hold, any other moves on
    apply-Free-Keeps :
        (p : Phase) (n : ℕ)
        → (tr.validate_tool_name ≡ true → e.skip_tool_parsing ≡ false)
        → Free e p n
        → Keeps (apply_transition s e tr value) p n
    unfolding read begin_hold
    apply-Free-Keeps p n skip f = elim (Bool-cases tr.validate_tool_name) [
      | inr plain ↦
          rw (apply_plain f.free plain)
            (Frees-Keeps _ p n (run_transition-Free e tr value p n sound_here f))
      | inl guarded ↦
          let (st, next) = d.validated e.state t tr tr_e guarded in
          elim (Bool-cases (recovers_nothing e)) [
            | inl nothing ↦
                rw (apply_text f.free guarded nothing)
                  (emit_for_state-Keeps s d e value p n (inl f))
            | inr something ↦ rw (apply_holding f.free guarded something) (
              p,
              n,
              refl,
              inr (
                  begin_hold-Held s d e tr value p n (sound_here outside (rw st refl)) st next
                    (skip guarded) f),
            )
          ]
    ]

    -- where tool calls are not skipped, a guarded transition is no terminal of a tool
    guarded_kept :
        (e.skip_tool_parsing && is_tool_terminal s.config t) ≡ false
        → tr.validate_tool_name ≡ true
        → e.skip_tool_parsing ≡ false
    guarded_kept h guarded =
        let (st, next) = d.validated e.state t tr tr_e guarded in
        ground (arith, tool_terminal s.config t e.state tr tr_e (rw next refl))

    apply-Keeps :
        (p : Phase) (n : ℕ)
        → (tr.validate_tool_name ≡ true → e.skip_tool_parsing ≡ false)
        → Inv e p n
        → Keeps (apply_transition s e tr value) p n
    apply-Keeps p n skip (inl f) = apply-Free-Keeps p n skip f
    apply-Keeps p n skip (inr h) =
        rw (apply_held h.active) (Frees-Keeps _ p n (resolve_hold-Frees p n h))

    skipped-Keeps :
        (p : Phase) (n : ℕ)
        → (e.skip_tool_parsing && is_tool_terminal s.config t) ≡ true
        → Inv e p n
        → Keeps (skip_terminal s e tr value) p n
    skipped-Keeps p n skips (inl f) = Frees-Keeps _ p n (skip_terminal-Free tr p n tr_e f)
    skipped-Keeps p n skips (inr h) = absurd (ground (arith, h.kept))

    follow-Keeps : (p : Phase) (n : ℕ) → Inv e p n → Keeps (follow s e tr t value) p n
    unfolding follow
    follow-Keeps p n i = elim (Bool-cases (e.skip_tool_parsing && is_tool_terminal s.config t)) [
      | inl skips ↦ rw skips (skipped-Keeps p n skips i)
      | inr goes_on ↦ elim (Bool-cases (tr.skip_in_token_id_mode && e.ever_had_token_ids)) [
        | inl id_mode ↦ rw (goes_on, id_mode) (emit_for_state-Keeps s d e value p n i)
        | inr any_mode ↦ rw (goes_on, any_mode) (apply-Keeps p n (guarded_kept goes_on) i)
      ]
    ]

pub Keeps-append :
    (e : Engine) (events rest : List SemanticEvent) (p q : Phase) (n k : ℕ)
    → read false p n events ≡ some (q, k)
    → Keeps (e, rest) q k
    → Keeps (e, events ++ rest) p n
Keeps-append e events rest p q n k taken (r, m, more, i) =
    (r, m, read-append false p q n k events rest taken ∙ more, i)

module _ (s : Setup) (d : IsDsml s.config) where
  dispatch-Keeps :
      (o : Option Transition) (e : Engine) (t : Terminal) (value : Text) (p : Phase) (n : ℕ)
      → s.config.transitions e.state t ≡ o
      → Inv e p n
      → Keeps (dispatch o s e t value) p n
  unfolding dispatch read
  dispatch-Keeps none e t value p n o_e i = elim (Bool-cases (s.has_drops && is_drop t)) [
    | inl drops ↦ rw drops (p, n, refl, i)
    | inr kept ↦ rw kept (emit_for_state-Keeps s d e value p n i)
  ]
  dispatch-Keeps (some tr) e t value p n o_e i = follow-Keeps s d e t value tr o_e p n i

  end_hold-Keeps :
      (e : Engine) (t : Terminal) (value : Text) (p : Phase) (n : ℕ)
      → Held e p n
      → Keeps (end_hold s e t value) p n
  unfolding end_hold
  end_hold-Keeps e t value p n h =
      let (e', events) = abort_hold s e (join e.held_raw) in
      let (q, k, taken, f) = abort_hold-Free s d e (join e.held_raw) p n h in
      Keeps-append _ events _ p q n k taken (dispatch-Keeps _ e' t value q k refl (inl f))

  ends-Held :
      (o : Option Transition) (e : Engine) (t : Terminal) (p : Phase) (n : ℕ)
      → ends_hold o s e t ≡ true
      → Inv e p n
      → Held e p n
  ends-Held none e t p n ends (inl f) = absurd (ground (arith, f.free))
  ends-Held none e t p n ends (inr h) = h
  ends-Held (some tr) e t p n ends i = absurd (ground arith)

  pub on_terminal-Keeps :
      (e : Engine) (t : Terminal) (value : Text) (p : Phase) (n : ℕ)
      → Inv e p n
      → Keeps (on_terminal s e t value) p n
  unfolding on_terminal
  on_terminal-Keeps e t value p n i =
      let o = s.config.transitions e.state t in
      elim (Bool-cases (ends_hold o s e t)) [
        | inl ends ↦ rw ends (end_hold-Keeps e t value p n (ends-Held o e t p n ends i))
        | inr goes_on ↦ rw goes_on (dispatch-Keeps o e t value p n refl i)
      ]
