-- ===== src/Deltas/Parsing.antt =====
-- A whole answer at once (`parse`, `_single_pass_parse`, `_build_extracted_result`,
-- patches/parser-engine.dsml-orphan.py).
use deepseek_v4_flash_mi300x.Prelude.{
  ℕ, Bool, true, false, not, ◌&&◌, ◌||◌, Option, none, some, List, [], ◌∷◌, ◌++◌, is_empty,
  if◌then◌else◌,
}
use deepseek_v4_flash_mi300x.Parser.{Text, SemanticEvent, ParserState, content, is_space, is_blank}
use deepseek_v4_flash_mi300x.Parser.Feed.{Lexing}
use deepseek_v4_flash_mi300x.Deltas.{ToolCallSlot, Tools}
use deepseek_v4_flash_mi300x.Deltas.Slots.{accepts, next_count, or_empty}
use deepseek_v4_flash_mi300x.Deltas.Messages.{
  Conversion, DeltaMessage, or_none, events_to_delta, Request,
}
use deepseek_v4_flash_mi300x.Deltas.Serving.{
  Options, Server, Delta, rstrip, new_events, declare, reset_parser,
}
pub mod Accepted
pub mod Agreement

pub record ToolCall : Type 0 where
  pub id : Text
  pub name : Text
  pub arguments : Text

-- What the answer's parser has besides: `_extract_name_and_args`, which reads the body as JSON, and
-- an option of the configuration.
pub record Extraction : Type 0 where
  pub extract_name_and_args : Text → Text × Text
  pub strips_content_with_tools : Bool

abbrev pub lstrip : Text → Text
lstrip [] = []
lstrip (c ∷ text) = let rest = lstrip text in if is_space c then rest else c ∷ text

abbrev pub strip : Text → Text
strip text = lstrip (rstrip text).0

abbrev pub no_arguments : Text
no_arguments = b'{' ∷ b'}' ∷ []

-- `_extract_args_json`
abbrev pub extract_args_json : Extraction → Text → Text
extract_args_json x raw = if is_blank raw then no_arguments else (x.extract_name_and_args raw).1

abbrev pub given_json : Extraction → Text → Option Text → Text
given_json x raw none = extract_args_json x raw
given_json x raw (some json) = json

abbrev pub converted : Extraction → Option (Text → Bool → Option Text) → Text → Text
converted x none raw = extract_args_json x raw
converted x (some converter) raw = given_json x raw (converter raw false)

-- a call's name and arguments
unfoldable pub read_slot : Tools → Extraction → ToolCallSlot → Text × Text
read_slot t x slot =
    let name = strip slot.name in
    if is_empty name && not (is_blank slot.args)
    then x.extract_name_and_args slot.args
    else if not (is_blank slot.args)
    then (name, converted x t.arg_converter slot.args)
    else (name, no_arguments)

unfoldable pub extract_slot :
    Tools → Extraction → ToolCallSlot → ℕ → ToolCallSlot × ℕ × List ToolCall
extract_slot t x slot cnt =
    let (name, json) = read_slot t x slot in
    let id = if is_empty slot.id then t.make_tool_call_id name cnt else slot.id in
    if is_empty slot.name && is_empty slot.args
    then (slot, cnt, [])
    else if accepts t name
    then (
      record slot { id = id },
      next_count slot cnt,
      record { id = id; name = name; arguments = t.fix_arg_types json name } ∷ [],
    )
    else (slot, cnt, [])

unfoldable pub extract_slots :
    Tools → Extraction → List ToolCallSlot → ℕ → List ToolCallSlot × ℕ × List ToolCall
extract_slots t x [] cnt = ([], cnt, [])
extract_slots t x (slot ∷ slots) cnt =
    let (slot', cnt', calls) = extract_slot t x slot cnt in
    let (slots', cnt'', rest) = extract_slots t x slots cnt' in
    (slot' ∷ slots', cnt'', calls ++ rest)

-- `_strip_content_whitespace`
unfoldable pub strip_content_whitespace : Extraction → Bool → Text → Bool → Option Text
strip_content_whitespace x drops_blank text tools_called = or_none (
    if tools_called
    then if x.strips_content_with_tools
      then strip text
      else if drops_blank && is_blank text
      then []
      else text
    else text)

-- `_build_extracted_result` without deltas
unfoldable pub build_extracted_result : Tools → Extraction → Conversion → Conversion × List ToolCall
build_extracted_result t x c =
    let (slots, cnt, calls) = extract_slots t x c.tool_slots c.history_tool_call_cnt in
    (record c { tool_slots = slots; history_tool_call_cnt = cnt }, calls)

abbrev pub reasoning_of : Option DeltaMessage → Option Text
reasoning_of none = none
reasoning_of (some m) = m.reasoning

abbrev pub content_of : Option DeltaMessage → Option Text
content_of none = none
content_of (some m) = m.content

abbrev pub strip_reasoning : Bool → Option Text → Option Text
strip_reasoning strips none = none
strip_reasoning strips (some r) = if strips then or_none (rstrip r).0 else some r

abbrev pub strip_content : Extraction → Bool → Bool → Option Text → Option Text
strip_content x drops_blank tools_called none = none
strip_content x drops_blank tools_called (some text) =
    strip_content_whitespace x drops_blank text tools_called

abbrev pub Parsed : Type 0
Parsed = Option Text × Option Text × Option (List ToolCall)

module _ {Scanner Lexer : Type 0} (l : Lexing Scanner Lexer) (o : Options) (x : Extraction) where
  -- `_single_pass_parse` after the message of the events
  abbrev pub extract :
      Tools
      → Server Scanner Lexer
      → Conversion × Option DeltaMessage
      → Server Scanner Lexer × Option Text × Option Text × List ToolCall
  extract t sv (c, m) =
      let (c', calls) = build_extracted_result t x c in
      (
        record sv { conversion = c' },
        strip_reasoning o.strips_reasoning (reasoning_of m),
        strip_content x o.drops_blank (not (is_empty calls)) (content_of m),
        calls,
      )

  -- `_single_pass_parse`, where an index out of range is `none`
  unfoldable pub single_pass_parse :
      Tools
      → Option ParserState
      → Server Scanner Lexer
      → Text
      → List ℕ
      → Option (Server Scanner Lexer × Option Text × Option Text × List ToolCall)
  single_pass_parse t initial sv text ids =
      let start = reset_parser l o initial sv in
      let (e, scanner, lexer, events) =
        new_events l o true start.engine start.scanner start.lexer text ids in
      let sv' = record start { engine = e; scanner = scanner; lexer = lexer } in
      elim (events_to_delta t o.drops_blank true sv'.conversion events) [
        | none ↦ none
        | some r ↦ some (extract t sv' r)
      ]

  abbrev pub as_parsed :
      Server Scanner Lexer × Option Text × Option Text × List ToolCall
      → Server Scanner Lexer × Parsed
  as_parsed (sv, reasoning, text, calls) =
      (sv, (reasoning, text, if is_empty calls then none else some calls))

  -- `parse`
  unfoldable pub parse : Server Scanner Lexer → Delta → Option (Server Scanner Lexer × Parsed)
  parse sv d = elim (single_pass_parse d.tools none (declare l o sv d) d.text d.ids) [
    | none ↦ none
    | some r ↦ some (as_parsed r)
  ]
