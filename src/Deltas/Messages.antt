-- ===== src/Deltas/Messages.antt =====
-- The events of a delta as one message for the client (`_events_to_delta`, `_check_skip_tool_parsing`,
-- patches/parser-engine.dsml-orphan.py). An index out of range is `none`.
use deepseek_v4_flash_mi300x.Prelude.{
  ℕ, zero, suc, ◌+◌, ◌-◌, Bool, true, false, not, ◌&&◌, ◌||◌, Option, none, some, List, [], ◌∷◌,
  ◌++◌, is_empty, length, ltb, leb, ◌==◌, if◌then◌else◌,
}
use deepseek_v4_flash_mi300x.Parser.{
  Text, EventType, text_chunk, reasoning_start, reasoning_chunk, reasoning_end, tool_call_start,
  arg_value_chunk, tool_call_end, SemanticEvent, is_blank, join,
}
use deepseek_v4_flash_mi300x.Deltas.{ToolCallSlot, new_slot, Tools, DeltaToolCall}
use deepseek_v4_flash_mi300x.Deltas.Slots.{Handled, handle_arg_chunk, handle_tool_end}
pub mod Coalesce
pub mod Defined

-- the variables of the loop, with the fields that it changes
pub record Loop : Type 0 where
  pub slots : List ToolCallSlot
  pub history_tool_call_cnt : ℕ
  pub deferred_content : Text
  pub reasoning_ended : Bool
  pub content_parts : List Text
  pub reasoning_parts : List Text
  pub deltas : List DeltaToolCall
  pub seen_tool_event : Bool

abbrev pub new_slots : ℕ → List ToolCallSlot
new_slots zero = []
new_slots (suc n) = new_slot ∷ new_slots n

-- `_ensure_slot`: the index is one more than the source's, so it is the number of slots
unfoldable pub ensure_slot : List ToolCallSlot → ℕ → List ToolCallSlot
ensure_slot slots n = slots ++ new_slots (n - length slots)

-- the position of `self._tool_slots[idx]`, where -1 is the last slot
unfoldable pub position : List ToolCallSlot → ℕ → Option ℕ
position slots n =
    if n == 0
    then if length slots == 0 then none else some (length slots - 1)
    else if leb n (length slots)
    then some (n - 1)
    else none

unfoldable pub slot_at : List ToolCallSlot → ℕ → ToolCallSlot
slot_at [] i = new_slot
slot_at (slot ∷ slots) zero = slot
slot_at (slot ∷ slots) (suc i) = slot_at slots i

unfoldable pub set_slot : List ToolCallSlot → ℕ → ToolCallSlot → List ToolCallSlot
set_slot [] i new = []
set_slot (slot ∷ slots) zero new = new ∷ slots
set_slot (slot ∷ slots) (suc i) new = slot ∷ set_slot slots i new

-- a handler on the slot at a position
unfoldable pub change_slot : (ToolCallSlot → ℕ → Handled) → Loop → Option ℕ → Option Loop
change_slot handle v none = none
change_slot handle v (some i) =
    let (slot, cnt, deltas) = handle (slot_at v.slots i) v.history_tool_call_cnt in
    some (record v {
      slots = set_slot v.slots i slot;
      history_tool_call_cnt = cnt;
      deltas = v.deltas ++ deltas;
      seen_tool_event = true;
    })

-- `_handle_tool_name`
abbrev pub handle_tool_name : Text → ToolCallSlot → ℕ → Handled
handle_tool_name value slot cnt = (record slot { name = slot.name ++ value }, cnt, [])

-- one event of the loop, by its type
unfoldable pub handle_type : EventType → Tools → Bool → Loop → SemanticEvent → Option Loop
handle_type text_chunk t suppress v ev = some (
    if v.seen_tool_event
    then record v { deferred_content = v.deferred_content ++ ev.value }
    else record v { content_parts = v.content_parts ++ ev.value ∷ [] })
handle_type reasoning_chunk t suppress v ev =
    some (record v { reasoning_parts = v.reasoning_parts ++ ev.value ∷ [] })
handle_type reasoning_end t suppress v ev = some (record v { reasoning_ended = true })
handle_type reasoning_start t suppress v ev = some v
handle_type tool_call_start t suppress v ev = some (
    if suppress
    then v
    else record v { seen_tool_event = true; slots = ensure_slot v.slots ev.tool_index })
handle_type EventType.tool_name t suppress v ev =
    if suppress
    then some v
    else change_slot (handle_tool_name ev.value) v (position v.slots ev.tool_index)
handle_type arg_value_chunk t suppress v ev =
    if suppress
    then some v
    else change_slot (handle_arg_chunk t ev.tool_index ev.value) v (position v.slots ev.tool_index)
handle_type tool_call_end t suppress v ev =
    if suppress
    then some v
    else if ltb (length v.slots) ev.tool_index
    then some (record v { seen_tool_event = true })
    else change_slot (handle_tool_end t ev.tool_index) v (position v.slots ev.tool_index)

abbrev pub handle_event : Tools → Bool → Loop → SemanticEvent → Option Loop
handle_event t suppress v ev = handle_type ev.type t suppress v ev

unfoldable pub handle_events : Tools → Bool → Loop → List SemanticEvent → Option Loop
handle_events t suppress v [] = some v
handle_events t suppress v (ev ∷ events) = elim (handle_event t suppress v ev) [
  | none ↦ none
  | some v' ↦ handle_events t suppress v' events
]

abbrev pub or_else {ℓ} : {A : Type ℓ} → Option A → Option A → Option A
or_else none other = other
or_else (some x) other = some x

abbrev pub join_arguments : Option Text → Option Text → Option Text
join_arguments none new = new
join_arguments (some old) none = some old
join_arguments (some old) (some new) = some (old ++ new)

-- one entry of `_coalesce_tool_call_deltas` into those that have been merged
unfoldable pub merge_delta : List DeltaToolCall → DeltaToolCall → List DeltaToolCall
merge_delta [] d = d ∷ []
merge_delta (old ∷ merged) d =
    let rest = merge_delta merged d in
    if old.index == d.index
    then (record old {
      id = or_else old.id d.id;
      name = or_else old.name d.name;
      arguments = join_arguments old.arguments d.arguments;
    })
      ∷ merged
    else old ∷ rest

unfoldable pub coalesce : List DeltaToolCall → List DeltaToolCall → List DeltaToolCall
coalesce merged [] = merged
coalesce merged (d ∷ deltas) = coalesce (merge_delta merged d) deltas

-- The fields of the parser that the conversion changes or reads.
pub record Conversion : Type 0 where
  pub tool_slots : List ToolCallSlot
  pub history_tool_call_cnt : ℕ
  pub deferred_content : Text
  pub reasoning_ended : Bool
  pub content_has_nonws : Bool
  pub suppress_tool_calls : Bool

pub record DeltaMessage : Type 0 where
  pub content : Option Text
  pub reasoning : Option Text
  pub tool_calls : List DeltaToolCall

abbrev pub start_loop : Conversion → Loop
start_loop c = record {
  slots = c.tool_slots;
  history_tool_call_cnt = c.history_tool_call_cnt;
  deferred_content = c.deferred_content;
  reasoning_ended = c.reasoning_ended;
  content_parts = [];
  reasoning_parts = [];
  deltas = [];
  seen_tool_event = false;
}

-- deferred content goes out unless a tool event came with deltas
abbrev pub releases : Loop → Bool
releases v = not (is_empty v.deferred_content) && (not v.seen_tool_event || is_empty v.deltas)

-- white space is held back, or dropped, until other content shows up
unfoldable pub settle_content : Bool → Bool → Conversion → Text → Conversion × Text
settle_content drops_blank finished c text =
    if c.content_has_nonws || is_empty text
    then (c, text)
    else if not (is_blank text)
    then (record c { content_has_nonws = true }, text)
    else if not (is_empty c.tool_slots)
    then (c, if drops_blank then [] else text)
    else if finished
    then (c, text)
    else (record c { deferred_content = text }, [])

abbrev pub or_none : Text → Option Text
or_none [] = none
or_none text = some text

abbrev pub message : Text → Text → List DeltaToolCall → Option DeltaMessage
message content reasoning calls =
    if is_empty content && is_empty reasoning && is_empty calls
    then none
    else some
        (record { content = or_none content; reasoning = or_none reasoning; tool_calls = calls })

-- `_events_to_delta` after its loop
unfoldable pub finish_delta : Bool → Bool → Conversion → Loop → Conversion × Option DeltaMessage
finish_delta drops_blank finished c v =
    let calls = if ltb 1 (length v.deltas) then coalesce [] v.deltas else v.deltas in
    let parts = join v.content_parts in
    let (c', content) =
      settle_content drops_blank finished
        (record c {
          tool_slots = v.slots;
          history_tool_call_cnt = v.history_tool_call_cnt;
          deferred_content = if releases v then [] else v.deferred_content;
          reasoning_ended = v.reasoning_ended;
        })
        (if releases v then v.deferred_content ++ parts else parts) in
    (c', message content (join v.reasoning_parts) calls)

unfoldable pub events_to_delta :
    Tools
    → Bool
    → Bool
    → Conversion
    → List SemanticEvent
    → Option (Conversion × Option DeltaMessage)
events_to_delta t drops_blank finished c events =
    if is_empty events && is_empty c.deferred_content
    then some (c, none)
    else elim (handle_events t c.suppress_tool_calls (start_loop c) events) [
      | none ↦ none
      | some v ↦ some (finish_delta drops_blank finished c v)
    ]

-- What the parser reads of a request: the names of its tools, if it has tools, and whether its
-- `tool_choice` is "none".
pub record Request : Type 0 where
  pub tools : Option (List Text)
  pub chooses_none : Bool

abbrev pub has_tools : Option (List Text) → Bool
has_tools none = false
has_tools (some names) = true

-- `_declared_tool_names`
abbrev pub declared_tool_names : Option (List Text) → Option (List Text)
declared_tool_names none = none
declared_tool_names (some []) = none
declared_tool_names (some names) = some names

-- `_check_skip_tool_parsing`: the parser's own part
unfoldable pub check_skip_tool_parsing : Bool → Conversion → Request → Conversion
check_skip_tool_parsing skips c request = record c {
  suppress_tool_calls =
      c.suppress_tool_calls || not skips && (request.chooses_none && has_tools request.tools);
}
