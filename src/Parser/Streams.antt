-- ===== src/Parser/Streams.antt =====
-- A stream of deltas of one request, with the tools that it declares
-- (patches/streaming-parser-engine.dsml-orphan.py, patches/parser-engine.dsml-orphan.py).
use deepseek_v4_flash_mi300x.Prelude.{ℕ, Bool, Option, List, [], ◌∷◌, ◌++◌}
use deepseek_v4_flash_mi300x.Parser.{Text, SemanticEvent, ParserState, Setup, Engine}
use deepseek_v4_flash_mi300x.Parser.Feed.{Lexing, feed, finish, reset}

-- a delta, or what `_check_skip_tool_parsing` sets before one
pub data Call : Type 0 where
  feeds : Text → List ℕ → Call
  declares : Option (List Text) → Bool → Call

pub record Stream (Scanner Lexer : Type 0) : Type 0 where
  pub engine : Engine
  pub scanner : Scanner
  pub lexer : Lexer
  pub emitted : List SemanticEvent

module _ {Scanner Lexer : Type 0} (l : Lexing Scanner Lexer) (s : Setup) where
  unfoldable pub step : Stream Scanner Lexer → Call → Stream Scanner Lexer
  step st (feeds text ids) =
      let (e, scanner, lexer, events) = feed l s st.engine st.scanner st.lexer text ids in
      record { engine = e; scanner = scanner; lexer = lexer; emitted = st.emitted ++ events }
  step st (declares names suppress) = record st {
    engine = record st.engine { allowed_tool_names = names; suppress_tool_calls = suppress };
  }

  unfoldable pub run : Stream Scanner Lexer → List Call → Stream Scanner Lexer
  run st [] = st
  run st (c ∷ cs) = run (step st c) cs

  -- the events of `finish`, and the engine that it leaves
  abbrev pub finished : Stream Scanner Lexer → Engine × List SemanticEvent
  finished st =
      let (e, scanner, lexer, events) = finish l s st.engine st.scanner st.lexer in (e, events)

-- a stream after `reset`
unfoldable pub begin :
    {Scanner Lexer : Type 0}
    → Setup
    → Option ParserState
    → Engine
    → Scanner
    → Lexer
    → Stream Scanner Lexer
begin s initial e scanner lexer = record {
  engine = reset s.config initial e;
  scanner = scanner;
  lexer = lexer;
  emitted = [];
}
