-- ===== src/Parser/Protocol/Endings.antt =====
-- The order of the events at the end of a stream (`finish`,
-- patches/streaming-parser-engine.dsml-orphan.py).
use deepseek_v4_flash_mi300x.Prelude.{
  ℕ, ◌≡◌, inl, inr, refl, ◌∙◌, Bool, true, false, Option, some, List, [], ◌∷◌, ◌++◌, ltb,
  Option-cases, arith,
}
use deepseek_v4_flash_mi300x.Parser.{
  SemanticEvent, ParserState, content, reasoning, message_header, tool_preamble, tool_args,
  tool_between, foreign_block, Setup, Engine, Emitted, is_tool_state, join,
}
use deepseek_v4_flash_mi300x.Parser.Transitions.{abort_hold}
use deepseek_v4_flash_mi300x.Parser.Feed.{
  Lexing, process_lex_tokens, flush_args, close_state, finish_hold, finish_engine, if_given, reset,
  process_scanner_items, finish,
}
use deepseek_v4_flash_mi300x.Parser.Streams.{Call, Stream, run, begin, finished}
use deepseek_v4_flash_mi300x.Parser.Protocol.{
  Phase, outside, ends_counted, turn, count_start, read, fits, IsDsml, read-append, read_end,
}
use deepseek_v4_flash_mi300x.Parser.Protocol.Positions.{Free, Inv, Frees}
use deepseek_v4_flash_mi300x.Parser.Protocol.Steps.{abort_hold-Free}
use deepseek_v4_flash_mi300x.Parser.Protocol.Runs.{tokens-Keeps, items-Keeps, run-Taken}

-- a call is open only if one has been started
abbrev pub is_counted : Phase → ℕ → Bool
is_counted outside n = true
is_counted p n = ltb 0 n

pub turn_counted :
    (end : Bool) (p q : Phase) (ev : SemanticEvent) (n : ℕ)
    → turn end p ev.type ≡ some q
    → is_counted p n ≡ true
    → is_counted q (count_start ev.type n) ≡ true
turn_counted end p q ev n h c = ground arith

pub read_counted :
    (end : Bool) (p q : Phase) (n k : ℕ) (events : List SemanticEvent)
    → read end p n events ≡ some (q, k)
    → is_counted p n ≡ true
    → is_counted q k ≡ true
unfolding read
read_counted end p q n k [] h c = ground arith
read_counted end p q n k (ev ∷ events) h c = elim (Option-cases (turn end p ev.type)) [
  | inl none_e ↦ ground arith
  | inr (r, r_e) ↦ ground (
    arith,
    turn_counted end p r ev n r_e c,
    read_counted end r q (count_start ev.type n) k events,
  )
]

pub ends_counted-append :
    (xs ys : List SemanticEvent)
    → ends_counted xs ≡ true
    → ends_counted ys ≡ true
    → ends_counted (xs ++ ys) ≡ true
unfolding ends_counted
ends_counted-append [] ys h k = k
ends_counted-append (x ∷ xs) ys h k = ground (arith, ends_counted-append xs ys)

-- the strict consumer meets an end only where a call is open
pub read_ends :
    (p q : Phase) (n k : ℕ) (events : List SemanticEvent)
    → read false p n events ≡ some (q, k)
    → is_counted p n ≡ true
    → ends_counted events ≡ true
unfolding read ends_counted
read_ends p q n k [] h c = refl
read_ends p q n k (ev ∷ events) h c = elim (Option-cases (turn false p ev.type)) [
  | inl none_e ↦ ground arith
  | inr (r, r_e) ↦
      ground
        (arith, turn_counted false p r ev n r_e c, read_ends r q (count_start ev.type n) k events)
]

-- what the events of an end leave: no call open, no hold, no state of a tool
abbrev pub Ends : Emitted → Phase → ℕ → Type 0
Ends m p n =
    (k : ℕ) × (read true p n m.1 ≡ some (outside, k))
    × (ends_counted m.1 ≡ true)
    × (m.0.hold_active ≡ false)
    × (is_tool_state m.0.state ≡ false)

close_state-Ends :
    (st : ParserState) (e : Engine) (p : Phase) (n : ℕ)
    → e.state ≡ st
    → is_counted p n ≡ true
    → Free e p n
    → Ends (close_state st e) p n
unfolding close_state read ends_counted
close_state-Ends content e p n h c f = (n, ground arith, ground arith, f.free, rw h refl)
close_state-Ends reasoning e p n h c f = (n, ground arith, ground arith, f.free, refl)
close_state-Ends message_header e p n h c f =
    (n, ground arith, ground arith, ground arith, ground arith)
close_state-Ends tool_preamble e p n h c f = (n, ground arith, ground arith, f.free, refl)
close_state-Ends ParserState.tool_name e p n h c f = (n, ground arith, ground arith, f.free, refl)
close_state-Ends tool_args e p n h c f = (n, ground arith, ground arith, f.free, refl)
close_state-Ends tool_between e p n h c f = (n, ground arith, ground arith, f.free, refl)
close_state-Ends foreign_block e p n h c f = (n, ground arith, ground arith, f.free, rw h refl)

flush_args_nothing : (e : Engine) → e.args_buffer ≡ [] → flush_args e ≡ (e, [])
unfolding flush_args
flush_args_nothing e h = ground arith

module _ (s : Setup) (d : IsDsml s.config) where
  finish_hold_free : (e : Engine) → e.hold_active ≡ false → finish_hold s e ≡ (e, [])
  unfolding finish_hold
  finish_hold_free e h = ground arith

  finish_hold_held :
      (e : Engine) → e.hold_active ≡ true → finish_hold s e ≡ abort_hold s e (join e.held_raw)
  unfolding finish_hold
  finish_hold_held e h = ground arith

  finish_hold-Frees : (e : Engine) (p : Phase) (n : ℕ) → Inv e p n → Frees (finish_hold s e) p n
  unfolding read
  finish_hold-Frees e p n (inl f) = rw (finish_hold_free e f.free) (p, n, refl, f)
  finish_hold-Frees e p n (inr h) =
      rw (finish_hold_held e h.active) (abort_hold-Free s d e (join e.held_raw) p n h)

  finish_engine-Ends :
      (e : Engine) (p : Phase) (n : ℕ)
      → is_counted p n ≡ true
      → Inv e p n
      → Ends (finish_engine s e) p n
  unfolding finish_engine
  finish_engine-Ends e p n c i =
      let (e1, held) = finish_hold s e in
      let (q, k, taken, f) = finish_hold-Frees e p n i in
      let counted = read_counted false p q n k held taken c in
      let (m, closed, ends, free, left) = close_state-Ends e1.state e1 q k refl counted f in
      rw (flush_args_nothing e1 f.unbuffered) (
        m,
        read-append true p q n k held _ (read_end p q n k held taken) ∙ closed,
        ends_counted-append held _ (read_ends p q n k held taken c) ends,
        free,
        left,
      )

  module _ {Scanner Lexer : Type 0} (l : Lexing Scanner Lexer) where
    pub finish-Ends :
        (st : Stream Scanner Lexer) (p : Phase) (n : ℕ)
        → is_counted p n ≡ true
        → Inv st.engine p n
        → Ends (finished l s st) p n
    unfolding finish
    finish-Ends st p n c i =
        let (scanner', items) = l.flush_pending st.scanner in
        let (e1, lexer1, pending) = process_scanner_items l s st.engine st.lexer items in
        let (lexer2, tokens) = l.flush lexer1 in
        let (e2, events) = process_lex_tokens s e1 tokens in
        let (q, k, taken, j) = items-Keeps s d l st.engine st.lexer items p n i in
        let (q', k', taken', j') = tokens-Keeps s d e1 tokens q k j in
        let counted = read_counted false p q n k pending taken c in
        let counted' = read_counted false q q' k k' events taken' counted in
        let (m, closed, ends, free, left) = finish_engine-Ends e2 q' k' counted' j' in
        (
          m,
          read-append true p q n k pending _ (read_end p q n k pending taken)
              ∙ (read-append true q q' k k' events _ (read_end q q' k k' events taken') ∙ closed),
          ends_counted-append pending _ (read_ends p q n k pending taken c)
              (ends_counted-append events _ (read_ends q q' k k' events taken' counted) ends),
          free,
          left,
        )

    -- For a configuration whose tables follow the order of the events, as those of DeepSeek V4
    -- and V3.2 do, and any scanner and lexer: from an engine reset to a state outside tool
    -- calls, after any deltas and any declarations of tools, the events are in order: a tool
    -- call is started before its name, its name comes before its arguments, no text and no
    -- reasoning comes while it is open, and each event carries the index of the call that was
    -- started last. `finish` ends a call that is open, keeps to the same order but for an end
    -- that may come again after a call's end, ends only calls that have been started, and
    -- leaves no hold and no state of a tool call.
    pub stream_protocol :
        (initial : Option ParserState) (e : Engine) (scanner : Scanner) (lexer : Lexer)
        (cs : List Call)
        → fits (if_given initial s.config.initial_state) outside ≡ true
        → let st = run l s (begin s initial e scanner lexer) cs in
          (p : Phase) × (n : ℕ) × (read false outside 0 st.emitted ≡ some (p, n))
          × Ends (finished l s st) p n
    unfolding begin reset read
    stream_protocol initial e scanner lexer cs h =
        let st = begin s initial e scanner lexer in
        let (p, n, taken, i) = run-Taken s d l st cs (
          outside,
          0,
          refl,
          inl (record { free = refl; fit = h; index = refl; unbuffered = refl }),
        ) in
        let c = read_counted false outside p 0 n (run l s st cs).emitted taken refl in
        (p, n, taken, finish-Ends (run l s st cs) p n c i)
