-- ===== src/Deltas/Slots.antt =====
-- A tool call's events on its slot (`_handle_tool_name`, `_handle_arg_chunk`, `_handle_tool_end` and
-- what they call, patches/parser-engine.dsml-orphan.py).
use deepseek_v4_flash_mi300x.Prelude.{
  ℕ, ◌+◌, Bool, true, false, not, ◌&&◌, ◌||◌, Option, none, some, List, [], ◌∷◌, ◌++◌, is_empty,
  length, drop, ltb, if◌then◌else◌,
}
use deepseek_v4_flash_mi300x.Parser.{Text, text_eq, starts_with}
use deepseek_v4_flash_mi300x.Deltas.{ToolCallSlot, Tools, DeltaToolCall, safe_arg_prefix}
pub mod Assembled
pub mod Complete

-- a slot with `history_tool_call_cnt`, and the deltas
abbrev pub Handled : Type 0
Handled = ToolCallSlot × ℕ × List DeltaToolCall

abbrev pub any_structural : (ℕ → Bool) → Text → Bool
any_structural is_structural [] = false
any_structural is_structural (c ∷ text) = is_structural c || any_structural is_structural text

-- `structural is not None and structural.isdisjoint(raw_delta)`
abbrev pub is_disjoint : Option (ℕ → Bool) → Text → Bool
is_disjoint none raw = false
is_disjoint (some is_structural) raw = not (any_structural is_structural raw)

-- a safe prefix that extends what has been streamed
unfoldable pub extend_streamed : ToolCallSlot → Text → ToolCallSlot × Option Text
extend_streamed slot safe =
    if is_empty safe || text_eq safe slot.streamed_json
    then (slot, none)
    else if not (starts_with safe slot.streamed_json)
    then (slot, none)
    else (record slot { streamed_json = safe }, some (drop (length slot.streamed_json) safe))

abbrev pub typed : Tools → ToolCallSlot → Text → Text
typed t slot json = if is_empty slot.name then json else t.fix_arg_types json slot.name

unfoldable pub stream_converted : Tools → ToolCallSlot → Option Text → ToolCallSlot × Option Text
unfolding extend_streamed
stream_converted t slot none = (slot, none)
stream_converted t slot (some json) =
    if is_empty json
    then (slot, none)
    else extend_streamed slot (safe_arg_prefix (typed t slot json) slot.string_keys)

unfoldable pub compute_with :
    Tools → Option (Text → Bool → Option Text) → ToolCallSlot → Text → ToolCallSlot × Option Text
unfolding stream_converted
compute_with t none slot raw = (slot, some raw)
compute_with t (some converter) slot raw =
    if not t.stream_arg_deltas || is_disjoint t.is_structural raw
    then (slot, none)
    else stream_converted t slot (converter slot.args true)

-- `_compute_arg_delta`
unfoldable pub compute_arg_delta : Tools → ToolCallSlot → Text → ToolCallSlot × Option Text
compute_arg_delta t slot raw = compute_with t t.arg_converter slot raw

-- what is left of the final JSON
unfoldable pub extend_final : ToolCallSlot → Text → ToolCallSlot × Option Text
extend_final slot json =
    if not (is_empty json) && ltb (length slot.streamed_json) (length json)
    then if not (is_empty slot.streamed_json) && not (starts_with json slot.streamed_json)
      then (slot, none)
      else (record slot { streamed_json = json }, some (drop (length slot.streamed_json) json))
    else (slot, none)

unfoldable pub flush_converted : Tools → ToolCallSlot → Option Text → ToolCallSlot × Option Text
unfolding extend_final
flush_converted t slot none = (slot, none)
flush_converted t slot (some json) =
    extend_final slot (if is_empty json then json else t.fix_arg_types json slot.name)

unfoldable pub flush_with :
    Tools → Option (Text → Bool → Option Text) → ToolCallSlot → ToolCallSlot × Option Text
flush_with t none slot = (slot, none)
flush_with t (some converter) slot = flush_converted t slot (converter slot.args false)

-- `_flush_arg_converter`
unfoldable pub flush_arg_converter : Tools → ToolCallSlot → ToolCallSlot × Option Text
flush_arg_converter t slot = flush_with t t.arg_converter slot

-- `_accept_tool_name`
abbrev pub accepts : Tools → Text → Bool
accepts t name = not (is_empty name) && t.is_valid_tool_name name

-- the slot once its name is sent, with `_ensure_tool_id`
unfoldable pub name_slot : Tools → ToolCallSlot → ℕ → Text → ToolCallSlot
name_slot t slot cnt name = record slot {
  name = name;
  name_sent = true;
  string_keys = t.streamable_string_keys name;
  id = if is_empty slot.id then t.make_tool_call_id name cnt else slot.id;
}

abbrev pub next_count : ToolCallSlot → ℕ → ℕ
next_count slot cnt = if is_empty slot.id then cnt + 1 else cnt

unfoldable pub emit_name_delta : Tools → ℕ → ToolCallSlot → ℕ → Option Text → Handled
unfolding name_slot
emit_name_delta t idx slot cnt none = (slot, cnt, [])
emit_name_delta t idx slot cnt (some name) =
    let named = name_slot t slot cnt name in
    if accepts t name
    then (
      named,
      next_count slot cnt,
      record { index = idx; id = some named.id; name = some name; arguments = none } ∷ [],
    )
    else (slot, cnt, [])

abbrev pub args_delta : ℕ → Text → DeltaToolCall
args_delta idx arguments = record {
  index = idx;
  id = none;
  name = none;
  arguments = some arguments;
}

-- `if arg_delta:`
abbrev pub deltas_of : ℕ → Option Text → List DeltaToolCall
deltas_of idx none = []
deltas_of idx (some text) = if is_empty text then [] else args_delta idx text ∷ []

unfoldable pub append_args : ToolCallSlot → Text → ToolCallSlot
append_args slot value = record slot { args = slot.args ++ value }

unfoldable pub handle_arg_chunk : Tools → ℕ → Text → ToolCallSlot → ℕ → Handled
unfolding append_args
handle_arg_chunk t idx value slot cnt =
    let grown = append_args slot value in
    let (streamed, delta) = compute_arg_delta t grown value in
    if not slot.name_sent
    then if not (is_empty slot.name)
      then emit_name_delta t idx grown cnt (some slot.name)
      else if is_empty value
      then (grown, cnt, [])
      else emit_name_delta t idx grown cnt (t.search_name grown.args)
    else if is_empty value
    then (grown, cnt, [])
    else (streamed, cnt, deltas_of idx delta)

abbrev pub or_empty : Option Text → Text
or_empty none = []
or_empty (some text) = text

-- `slot.name or self._try_extract_name(idx) or ""`
abbrev pub final_name : Tools → ToolCallSlot → Text
final_name t slot = if is_empty slot.name then or_empty (t.search_name slot.args) else slot.name

-- the end of a call whose name has not been sent
unfoldable pub end_unnamed : Tools → ℕ → ToolCallSlot → ℕ → Option Text → Handled
unfolding name_slot
end_unnamed t idx slot cnt remaining =
    let name = final_name t slot in
    let named = name_slot t slot cnt name in
    if accepts t name
    then (
      named,
      next_count slot cnt,
      record {
        index = idx;
        id = some named.id;
        name = some name;
        arguments = some (or_empty remaining);
      }
          ∷ [],
    )
    else (slot, cnt, [])

unfoldable pub handle_tool_end : Tools → ℕ → ToolCallSlot → ℕ → Handled
handle_tool_end t idx slot cnt =
    let (flushed, remaining) = flush_arg_converter t slot in
    if slot.name_sent
    then (flushed, cnt, deltas_of idx remaining)
    else end_unnamed t idx flushed cnt remaining
