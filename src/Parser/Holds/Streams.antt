-- ===== src/Parser/Holds/Streams.antt =====
-- A hold stays short over a whole stream (`feed`,
-- patches/streaming-parser-engine.dsml-orphan.py).
use deepseek_v4_flash_mi300x.Prelude.{
  ℕ, ◌≤◌, inl, inr, Bool-cases, refl, Bool, ◌&&◌, ◌||◌, Option, List, [], ◌∷◌, length, is_empty,
  arith,
}
use deepseek_v4_flash_mi300x.Parser.{Text, ParserState, Setup, Engine, join}
use deepseek_v4_flash_mi300x.Parser.Transitions.{on_content}
use deepseek_v4_flash_mi300x.Parser.Feed.{
  LexToken, LexerInput, pre_lexed_terminal, text_piece, Lexing, is_content, process_lex_token,
  process_tokens, process_lex_tokens, process_text, note_ids, process_item, process_scanner_items,
  process_scanned, is_plain, feed_plain, feed_scanned, feed, reset,
}
use deepseek_v4_flash_mi300x.Parser.Streams.{Call, feeds, Stream, step, run, begin}
use deepseek_v4_flash_mi300x.Parser.Holds.{
  longest, Short, branch-Short, emit_for_state-Short, on_terminal-Short,
}

-- deltas with no declaration of tools between them
abbrev pub as_calls : List (Text × List ℕ) → List Call
as_calls [] = []
as_calls ((text, ids) ∷ deltas) = feeds text ids ∷ as_calls deltas

module _ (names : Option (List Text)) (s : Setup) where
  on_content-Short :
      (e : Engine) (text : Text) → Short names e → Short names (on_content s e text).0
  unfolding on_content
  on_content-Short e text h =
      branch-Short names s (is_empty text) _ _ h (emit_for_state-Short names s e text h)

  token-Short :
      (is_text : Bool) (e : Engine) (tok : LexToken)
      → Short names e
      → Short names (process_lex_token s is_text e tok).0
  unfolding process_lex_token
  token-Short is_text e tok h =
      branch-Short names s is_text _ _ (on_content-Short e tok.value h)
        (on_terminal-Short names s e tok.terminal tok.value h)

  tokens-Short :
      (had_ids : Bool) (e : Engine) (tokens : List LexToken)
      → Short names e
      → Short names (process_tokens s had_ids e tokens).0
  unfolding process_tokens
  tokens-Short had_ids e [] h = h
  tokens-Short had_ids e (tok ∷ tokens) h =
      let is_text = is_content tok.terminal || had_ids && s.token_id_terminal_names tok.terminal in
      tokens-Short had_ids (process_lex_token s is_text e tok).0 tokens
        (token-Short is_text e tok h)

  lex_tokens-Short :
      (e : Engine) (tokens : List LexToken)
      → Short names e
      → Short names (process_lex_tokens s e tokens).0
  unfolding process_lex_tokens
  lex_tokens-Short e tokens h = tokens-Short e.ever_had_token_ids e tokens h

  text-Short :
      (e : Engine) (tokens : List LexToken)
      → Short names e
      → Short names (process_text s e tokens).0
  unfolding process_text
  text-Short e [] h = lex_tokens-Short e [] h
  text-Short e (tok ∷ []) h =
      branch-Short names s (is_content tok.terminal) _ _
        (emit_for_state-Short names s e tok.value h) (lex_tokens-Short e (tok ∷ []) h)
  text-Short e (tok ∷ more ∷ tokens) h = lex_tokens-Short e (tok ∷ more ∷ tokens) h

  module _ {Scanner Lexer : Type 0} (l : Lexing Scanner Lexer) where
    item-Short :
        (e : Engine) (lexer : Lexer) (item : LexerInput)
        → Short names e
        → Short names (process_item l s e lexer item).0
    unfolding process_item
    item-Short e lexer (pre_lexed_terminal t text) h =
        on_terminal-Short names s _ t text (lex_tokens-Short e (l.flush lexer).1 h)
    item-Short e lexer (text_piece text) h = lex_tokens-Short e (l.lex lexer text).1 h

    items-Short :
        (e : Engine) (lexer : Lexer) (items : List LexerInput)
        → Short names e
        → Short names (process_scanner_items l s e lexer items).0
    unfolding process_scanner_items
    items-Short e lexer [] h = h
    items-Short e lexer (item ∷ items) h =
        let m = process_item l s e lexer item in
        items-Short m.0 m.1 items (item-Short e lexer item h)

    scanned-Short :
        (e : Engine) (lexer : Lexer) (items : List LexerInput)
        → Short names e
        → Short names (process_scanned l s e lexer items).0
    unfolding process_scanned
    scanned-Short e lexer [] h = items-Short e lexer [] h
    scanned-Short e lexer (text_piece text ∷ []) h = text-Short e _ h
    scanned-Short e lexer items h = items-Short e lexer items h

    feed-Short :
        (e : Engine) (scanner : Scanner) (lexer : Lexer) (text : Text) (ids : List ℕ)
        → Short names e
        → Short names (feed l s e scanner lexer text ids).0
    unfolding feed feed_plain feed_scanned
    feed-Short e scanner lexer text ids h =
        let noted : Short names (note_ids e ids) = record {
          declared = h.declared;
          short = h.short;
        } in
        elim (Bool-cases (is_plain l s scanner lexer text ids)) [
          | inl plain ↦ rw plain (emit_for_state-Short names s (note_ids e ids) text noted)
          | inr other ↦
              rw other (scanned-Short (note_ids e ids) lexer (l.scan scanner text ids).1 noted)
        ]

    feeds-Short :
        (st : Stream Scanner Lexer) (deltas : List (Text × List ℕ))
        → Short names st.engine
        → Short names (run l s st (as_calls deltas)).engine
    unfolding run step
    feeds-Short st [] h = h
    feeds-Short st ((text, ids) ∷ deltas) h =
        feeds-Short (step l s st (feeds text ids)) deltas
          (feed-Short st.engine st.scanner st.lexer text ids h)

module _ {Scanner Lexer : Type 0} (l : Lexing Scanner Lexer) (s : Setup) where
  -- From a reset engine, after any deltas with no declaration of tools between them, the held
  -- name is no longer than the longest declared name, and is empty where no tools are declared.
  pub held_name_bounded :
      (initial : Option ParserState) (e : Engine) (scanner : Scanner) (lexer : Lexer)
      (deltas : List (Text × List ℕ))
      → length (join (run l s (begin s initial e scanner lexer) (as_calls deltas)).engine.held_name)
        ≤ longest e.allowed_tool_names
  unfolding begin reset join
  held_name_bounded initial e scanner lexer deltas =
      (feeds-Short e.allowed_tool_names s l (begin s initial e scanner lexer) deltas
        (record { declared = refl; short = omega arith })).short
