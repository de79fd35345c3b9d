-- ===== src/Deltas/Serving.antt =====
-- A delta of a request, from its text to the message for the client (`parse_delta`, `_reset`,
-- patches/parser-engine.dsml-orphan.py).
use deepseek_v4_flash_mi300x.Prelude.{
  ℕ, Bool, true, false, not, ◌&&◌, ◌||◌, Option, none, some, List, [], ◌∷◌, ◌++◌, is_empty,
  if◌then◌else◌,
}
use deepseek_v4_flash_mi300x.Parser.{Text, SemanticEvent, ParserState, Setup, Engine, is_blank}
use deepseek_v4_flash_mi300x.Parser.Feed.{Lexing, feed, finish, reset}
use deepseek_v4_flash_mi300x.Deltas.{Tools}
use deepseek_v4_flash_mi300x.Deltas.Messages.{
  Conversion, DeltaMessage, or_none, events_to_delta, Request, declared_tool_names,
  check_skip_tool_parsing,
}
pub mod Defined
pub mod Suppressed

-- What the parser reads of its configuration, with whether a prompt may leave it in reasoning.
pub record Options : Type 0 where
  pub setup : Setup
  pub drops_blank : Bool
  pub strips_reasoning : Bool
  pub has_reasoning : Bool

-- a parser, with its engine
pub record Server (Scanner Lexer : Type 0) : Type 0 where
  pub engine : Engine
  pub scanner : Scanner
  pub lexer : Lexer
  pub conversion : Conversion
  pub deferred_reasoning : Text

-- A call of `parse_delta`, with what the tools of the request give.
pub record Delta : Type 0 where
  pub tools : Tools
  pub request : Request
  pub include_reasoning : Bool
  pub text : Text
  pub ids : List ℕ

-- a text without its trailing white space, and that white space
abbrev pub rstrip : Text → Text × Text
rstrip [] = ([], [])
rstrip (c ∷ text) =
    let (kept, white) = rstrip text in
    if is_blank (c ∷ text) then ([], c ∷ text) else (c ∷ kept, white)

abbrev pub is_silent : Option Text → Option Text → Bool
is_silent none none = true
is_silent _ _ = false

-- a message with that reasoning, unless nothing is left of it
abbrev pub with_reasoning : Option Text → DeltaMessage → Option DeltaMessage
with_reasoning r m =
    if is_silent r m.content && is_empty m.tool_calls
    then none
    else some (record m { reasoning = r })

-- that for a message with that reasoning: what is deferred, and the message without it
abbrev pub strip_message : Text → Bool → DeltaMessage → Option Text → Text × Option DeltaMessage
strip_message deferred ended m none = (if ended then [] else deferred, some m)
strip_message deferred ended m (some r) =
    let (kept, white) = rstrip (deferred ++ r) in (white, with_reasoning (or_none kept) m)

-- `_strip_trailing_reasoning`, from what it deferred and whether reasoning has ended
unfoldable pub strip_trailing_reasoning :
    Bool → Text → Bool → Option DeltaMessage → Text × Option DeltaMessage
strip_trailing_reasoning strips deferred ended none =
    (if strips && ended then [] else deferred, none)
strip_trailing_reasoning strips deferred ended (some m) =
    if strips then strip_message deferred ended m m.reasoning else (deferred, some m)

-- reasoning that the request does not ask for is left out
abbrev pub settle_reasoning : Bool → Option DeltaMessage → Option DeltaMessage
settle_reasoning included none = none
settle_reasoning included (some m) = if included then some m else with_reasoning none m

module _ {Scanner Lexer : Type 0} (l : Lexing Scanner Lexer) (o : Options) where
  -- the events of a delta, with those of the end of the stream if it is the last one
  unfoldable pub new_events :
      Bool
      → Engine
      → Scanner
      → Lexer
      → Text
      → List ℕ
      → Engine × Scanner × Lexer × List SemanticEvent
  new_events finished e scanner lexer text ids =
      let (e1, scanner1, lexer1, events) = feed l o.setup e scanner lexer text ids in
      let (e2, scanner2, lexer2, last) = finish l o.setup e1 scanner1 lexer1 in
      if finished then (e2, scanner2, lexer2, events ++ last) else (e1, scanner1, lexer1, events)

  -- `_check_skip_tool_parsing`: what it sets in the engine
  abbrev pub declare : Server Scanner Lexer → Delta → Server Scanner Lexer
  declare sv d =
      let c = check_skip_tool_parsing sv.engine.skip_tool_parsing sv.conversion d.request in
      record sv {
        engine = record sv.engine {
          allowed_tool_names = declared_tool_names d.request.tools;
          suppress_tool_calls = c.suppress_tool_calls;
        };
        conversion = c;
      }

  -- `parse_delta` after the events have been converted
  abbrev pub settle :
      Delta
      → Server Scanner Lexer
      → Conversion × Option DeltaMessage
      → Server Scanner Lexer × Option DeltaMessage
  settle d sv (c, result) =
      let (white, m) =
        strip_trailing_reasoning o.strips_reasoning sv.deferred_reasoning c.reasoning_ended
          result in
      (
        record sv { conversion = c; deferred_reasoning = white },
        settle_reasoning d.include_reasoning m,
      )

  unfoldable pub convert :
      Bool
      → Delta
      → Server Scanner Lexer
      → List SemanticEvent
      → Option (Server Scanner Lexer × Option DeltaMessage)
  convert finished d sv events =
      elim (events_to_delta d.tools o.drops_blank finished sv.conversion events) [
        | none ↦ none
        | some r ↦ some (settle d sv r)
      ]

  -- `parse_delta`, where an index out of range is `none`
  unfoldable pub parse_delta :
      Bool → Server Scanner Lexer → Delta → Option (Server Scanner Lexer × Option DeltaMessage)
  parse_delta finished sv d =
      let sv' = declare sv d in
      let (e, scanner, lexer, events) =
        new_events finished sv'.engine sv'.scanner sv'.lexer d.text d.ids in
      convert finished d (record sv' { engine = e; scanner = scanner; lexer = lexer }) events

  -- `_reset`
  unfoldable pub reset_parser : Option ParserState → Server Scanner Lexer → Server Scanner Lexer
  reset_parser initial sv = record {
    engine = reset o.setup.config initial sv.engine;
    scanner = l.reset_scanner sv.scanner;
    lexer = l.reset_lexer sv.lexer;
    conversion = record sv.conversion {
      tool_slots = [];
      deferred_content = [];
      reasoning_ended = not o.has_reasoning;
      content_has_nonws = false;
    };
    deferred_reasoning = [];
  }

  -- deltas of one stream, none of them the last
  unfoldable pub parse_deltas :
      Server Scanner Lexer → List Delta → Option (Server Scanner Lexer × List (Option DeltaMessage))
  parse_deltas sv [] = some (sv, [])
  parse_deltas sv (d ∷ ds) = elim (parse_delta false sv d) [
    | none ↦ none
    | some (sv', m) ↦ elim (parse_deltas sv' ds) [
      | none ↦ none
      | some (sv'', ms) ↦ some (sv'', m ∷ ms)
    ]
  ]
