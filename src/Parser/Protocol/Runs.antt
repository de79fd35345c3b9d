-- ===== src/Parser/Protocol/Runs.antt =====
-- The order of the events of whole streams (`feed` and `finish`,
-- patches/streaming-parser-engine.dsml-orphan.py).
use deepseek_v4_flash_mi300x.Prelude.{
  ℕ, ◌≡◌, inl, inr, refl, ◌∙◌, Bool, true, false, ◌&&◌, ◌||◌, Option, some, List, [], ◌∷◌, is_empty,
  Bool-cases,
}
use deepseek_v4_flash_mi300x.Parser.{Text, SemanticEvent, Setup, Engine}
use deepseek_v4_flash_mi300x.Parser.Transitions.{on_content}
use deepseek_v4_flash_mi300x.Parser.Feed.{
  LexToken, LexerInput, pre_lexed_terminal, text_piece, Lexing, is_content, process_lex_token,
  process_tokens, process_lex_tokens, process_item, process_scanner_items, process_text,
  process_scanned, note_ids, is_plain, feed_scanned, feed_plain, feed,
}
use deepseek_v4_flash_mi300x.Parser.Streams.{Call, feeds, declares, Stream, step, run}
use deepseek_v4_flash_mi300x.Parser.Protocol.{Phase, outside, read, IsDsml, read-append}
use deepseek_v4_flash_mi300x.Parser.Protocol.Positions.{Inv, Keeps}
use deepseek_v4_flash_mi300x.Parser.Protocol.Steps.{emit_for_state-Keeps}
use deepseek_v4_flash_mi300x.Parser.Protocol.Terminals.{Keeps-append, on_terminal-Keeps}

note_ids-Inv :
    (e : Engine) (ids : List ℕ) (p : Phase) (n : ℕ) → Inv e p n → Inv (note_ids e ids) p n
note_ids-Inv e ids p n (inl f) =
    inl (record { free = f.free; fit = f.fit; index = f.index; unbuffered = f.unbuffered })
note_ids-Inv e ids p n (inr h) = inr (record {
  active = h.active;
  state = h.state;
  prior = h.prior;
  before = h.before;
  prior_index = h.prior_index;
  opens = h.opens;
  kept = h.kept;
  unbuffered = h.unbuffered;
})

module _ (s : Setup) (d : IsDsml s.config) where
  on_content-Keeps :
      (e : Engine) (text : Text) (p : Phase) (n : ℕ) → Inv e p n → Keeps (on_content s e text) p n
  unfolding on_content read
  on_content-Keeps e text p n i = elim (Bool-cases (is_empty text)) [
    | inl empty ↦ rw empty (p, n, refl, i)
    | inr full ↦ rw full (emit_for_state-Keeps s d e text p n i)
  ]

  process_lex_token-Keeps :
      (is_text : Bool) (e : Engine) (tok : LexToken) (p : Phase) (n : ℕ)
      → Inv e p n
      → Keeps (process_lex_token s is_text e tok) p n
  unfolding process_lex_token
  process_lex_token-Keeps true e tok p n i = on_content-Keeps e tok.value p n i
  process_lex_token-Keeps false e tok p n i = on_terminal-Keeps s d e tok.terminal tok.value p n i

  process_tokens-Keeps :
      (had_ids : Bool) (e : Engine) (tokens : List LexToken) (p : Phase) (n : ℕ)
      → Inv e p n
      → Keeps (process_tokens s had_ids e tokens) p n
  unfolding process_tokens read
  process_tokens-Keeps had_ids e [] p n i = (p, n, refl, i)
  process_tokens-Keeps had_ids e (tok ∷ tokens) p n i =
      let is_text = is_content tok.terminal || had_ids && s.token_id_terminal_names tok.terminal in
      let (e', events) = process_lex_token s is_text e tok in
      let (q, k, taken, j) = process_lex_token-Keeps is_text e tok p n i in
      Keeps-append _ events _ p q n k taken (process_tokens-Keeps had_ids e' tokens q k j)

  pub tokens-Keeps :
      (e : Engine) (tokens : List LexToken) (p : Phase) (n : ℕ)
      → Inv e p n
      → Keeps (process_lex_tokens s e tokens) p n
  unfolding process_lex_tokens
  tokens-Keeps e tokens = process_tokens-Keeps e.ever_had_token_ids e tokens

  process_text-Keeps :
      (e : Engine) (tokens : List LexToken) (p : Phase) (n : ℕ)
      → Inv e p n
      → Keeps (process_text s e tokens) p n
  unfolding process_text
  process_text-Keeps e [] p n i = tokens-Keeps e [] p n i
  process_text-Keeps e (tok ∷ []) p n i = elim (Bool-cases (is_content tok.terminal)) [
    | inl text ↦ rw text (emit_for_state-Keeps s d e tok.value p n i)
    | inr other ↦ rw other (tokens-Keeps e (tok ∷ []) p n i)
  ]
  process_text-Keeps e (tok ∷ more ∷ tokens) p n i = tokens-Keeps e (tok ∷ more ∷ tokens) p n i

  module _ {Scanner Lexer : Type 0} (l : Lexing Scanner Lexer) where
    -- what an operation leaves of the engine, the lexer and the events
    abbrev pub KeepsItem : Engine × Lexer × List SemanticEvent → Phase → ℕ → Type 0
    KeepsItem (e, lexer, events) p n = Keeps (e, events) p n

    process_item-Keeps :
        (e : Engine) (lexer : Lexer) (item : LexerInput) (p : Phase) (n : ℕ)
        → Inv e p n
        → KeepsItem (process_item l s e lexer item) p n
    unfolding process_item
    process_item-Keeps e lexer (pre_lexed_terminal t text) p n i =
        let (lexer', tokens) = l.flush lexer in
        let (e', events) = process_lex_tokens s e tokens in
        let (q, k, taken, j) = tokens-Keeps e tokens p n i in
        Keeps-append _ events _ p q n k taken (on_terminal-Keeps s d e' t text q k j)
    process_item-Keeps e lexer (text_piece text) p n i = tokens-Keeps e _ p n i

    pub items-Keeps :
        (e : Engine) (lexer : Lexer) (items : List LexerInput) (p : Phase) (n : ℕ)
        → Inv e p n
        → KeepsItem (process_scanner_items l s e lexer items) p n
    unfolding process_scanner_items read
    items-Keeps e lexer [] p n i = (p, n, refl, i)
    items-Keeps e lexer (item ∷ items) p n i =
        let (e', lexer', events) = process_item l s e lexer item in
        let (q, k, taken, j) = process_item-Keeps e lexer item p n i in
        Keeps-append _ events _ p q n k taken (items-Keeps e' lexer' items q k j)

    process_scanned-Keeps :
        (e : Engine) (lexer : Lexer) (items : List LexerInput) (p : Phase) (n : ℕ)
        → Inv e p n
        → KeepsItem (process_scanned l s e lexer items) p n
    unfolding process_scanned
    process_scanned-Keeps e lexer [] p n i = items-Keeps e lexer [] p n i
    process_scanned-Keeps e lexer (text_piece text ∷ []) p n i = process_text-Keeps e _ p n i
    process_scanned-Keeps e lexer items p n i = items-Keeps e lexer items p n i

    abbrev pub KeepsFeed : Engine × Scanner × Lexer × List SemanticEvent → Phase → ℕ → Type 0
    KeepsFeed (e, scanner, lexer, events) p n = Keeps (e, events) p n

    pub feed-Keeps :
        (e : Engine) (scanner : Scanner) (lexer : Lexer) (text : Text) (ids : List ℕ) (p : Phase)
        (n : ℕ)
        → Inv e p n
        → KeepsFeed (feed l s e scanner lexer text ids) p n
    unfolding feed feed_plain feed_scanned
    feed-Keeps e scanner lexer text ids p n i =
        let j = note_ids-Inv e ids p n i in
        elim (Bool-cases (is_plain l s scanner lexer text ids)) [
          | inl plain ↦ rw plain (emit_for_state-Keeps s d (note_ids e ids) text p n j)
          | inr other ↦
              rw other
                (process_scanned-Keeps (note_ids e ids) lexer (l.scan scanner text ids).1 p n j)
        ]

    -- the invariant of a stream: the consumer has taken its events
    abbrev pub Taken : Stream Scanner Lexer → Type 0
    Taken st =
        (p : Phase) × (n : ℕ) × (read false outside 0 st.emitted ≡ some (p, n)) × Inv st.engine p n

    pub declared-Inv :
        (e : Engine) (names : Option (List Text)) (suppress : Bool) (p : Phase) (n : ℕ)
        → Inv e p n
        → Inv (record e { allowed_tool_names = names; suppress_tool_calls = suppress }) p n
    declared-Inv e names suppress p n (inl f) =
        inl (record { free = f.free; fit = f.fit; index = f.index; unbuffered = f.unbuffered })
    declared-Inv e names suppress p n (inr h) = inr (record {
      active = h.active;
      state = h.state;
      prior = h.prior;
      before = h.before;
      prior_index = h.prior_index;
      opens = h.opens;
      kept = h.kept;
      unbuffered = h.unbuffered;
    })

    pub step-Taken : (st : Stream Scanner Lexer) (c : Call) → Taken st → Taken (step l s st c)
    unfolding step
    step-Taken st (feeds text ids) (p, n, taken, i) =
        let (q, k, more, j) = feed-Keeps st.engine st.scanner st.lexer text ids p n i in
        (q, k, read-append false outside p 0 n st.emitted _ taken ∙ more, j)
    step-Taken st (declares names suppress) (p, n, taken, i) =
        (p, n, taken, declared-Inv st.engine names suppress p n i)

    pub run-Taken : (st : Stream Scanner Lexer) (cs : List Call) → Taken st → Taken (run l s st cs)
    unfolding run
    run-Taken st [] t = t
    run-Taken st (c ∷ cs) t = run-Taken (step l s st c) cs (step-Taken st c t)
