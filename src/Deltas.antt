-- ===== src/Deltas.antt =====
-- Deltas for the client: a tool call's slot, and the arguments that are streamed from it
-- (`ParserEngine`, patches/parser-engine.dsml-orphan.py).
use deepseek_v4_flash_mi300x.Prelude.{
  ℕ, ◌+◌, ◌-◌, Bool, true, false, not, ◌&&◌, ◌||◌, Option, none, some, List, [], ◌∷◌, ◌++◌,
  is_empty, length, take, drop, ltb, leb, ◌==◌, if◌then◌else◌,
}
use deepseek_v4_flash_mi300x.Parser.{Text, text_eq, starts_with, text_mem}
pub mod Slots
pub mod Messages
pub mod Reasoning
pub mod Serving
pub mod Parsing

pub record ToolCallSlot : Type 0 where
  pub id : Text
  pub name : Text
  pub args : Text
  pub name_sent : Bool
  pub string_keys : Option (List Text)
  pub streamed_json : Text

abbrev pub new_slot : ToolCallSlot
new_slot = record {
  id = [];
  name = [];
  args = [];
  name_sent = false;
  string_keys = none;
  streamed_json = [];
}

-- What the parser takes from its configuration, the request's tools and the libraries: the argument
-- converter, which may raise, the tool schemas, the ids and the search for a name in the arguments.
pub record Tools : Type 0 where
  pub arg_converter : Option (Text → Bool → Option Text)
  pub stream_arg_deltas : Bool
  pub is_structural : Option (ℕ → Bool)
  pub fix_arg_types : Text → Text → Text
  pub is_valid_tool_name : Text → Bool
  pub streamable_string_keys : Text → Option (List Text)
  pub make_tool_call_id : Text → ℕ → Text
  pub search_name : Text → Option Text

pub record DeltaToolCall : Type 0 where
  pub index : ℕ
  pub id : Option Text
  pub name : Option Text
  pub arguments : Option Text

-- `json_str[end]` is one of " ", "\t", "\n", "\r"
abbrev pub is_json_space : ℕ → Bool
is_json_space c = c == 32 || c == 9 || c == 10 || c == 13

-- The variables of the first loop of `_safe_arg_prefix`. `depth` is `opened` less `closed`, and a
-- position of -1 is `none`.
pub record Scan : Type 0 where
  pub last_colon : Option ℕ
  pub last_key : Option Text
  pub pending_key : Option Text
  pub in_string : Bool
  pub escape : Bool
  pub string_start : Option ℕ
  pub opened : ℕ
  pub closed : ℕ

abbrev pub is_top : Scan → Bool
is_top v = v.opened == v.closed + 1

-- `json_str[string_start + 1 : i]`
abbrev pub key_at : Text → ℕ → Option ℕ → Option Text
key_at json i none = none
key_at json i (some start) = some (drop (start + 1) (take i json))

abbrev pub keep_old : Option Text → Option Text → Option Text
keep_old none old = old
keep_old (some key) old = some key

-- the end of a string at the top level may be a key
abbrev pub close_string : Text → ℕ → Scan → Scan
close_string json i v =
    let found = key_at json i v.string_start in
    record v {
      in_string = false;
      pending_key = if is_top v then keep_old found v.pending_key else v.pending_key;
    }

-- one character at position `i`
unfoldable pub scan_char : Text → ℕ → ℕ → Scan → Scan
scan_char json i c v =
    if v.escape
    then record v { escape = false }
    else if v.in_string
    then if c == b'\\'
      then record v { escape = true }
      else if c == b'"'
      then close_string json i v
      else v
    else if c == b'"'
    then record v { in_string = true; string_start = some i }
    else if c == b'{' || c == b'['
    then record v { opened = v.opened + 1 }
    else if c == b'}' || c == b']'
    then record v { closed = v.closed + 1 }
    else if c == b':' && is_top v
    then record v { last_colon = some i; last_key = v.pending_key; pending_key = none }
    else v

unfoldable pub scan_json : Text → ℕ → Text → Scan → Scan
scan_json json i [] v = v
scan_json json i (c ∷ rest) v = scan_json json (i + 1) rest (scan_char json i c v)

abbrev pub no_scan : Scan
no_scan = record {
  last_colon = none;
  last_key = none;
  pending_key = none;
  in_string = false;
  escape = false;
  string_start = none;
  opened = 0;
  closed = 0;
}

unfoldable pub skip_spaces : ℕ → Text → ℕ
skip_spaces end [] = end
skip_spaces end (c ∷ rest) =
    let further = skip_spaces (end + 1) rest in if is_json_space c then further else end

-- the position of the quote that ends the string, from position `i`
unfoldable pub string_end : ℕ → Bool → Text → Option ℕ
string_end i escape [] = none
string_end i escape (c ∷ rest) =
    let further = string_end (i + 1) (not escape && c == b'\\') rest in
    if not escape && c == b'"' then some i else further

abbrev pub starts_string : Text → Bool
starts_string [] = false
starts_string (c ∷ rest) = c == b'"'

-- `string_keys is not None and last_key not in string_keys`
abbrev pub is_unsafe_key : Option (List Text) → Option Text → Bool
is_unsafe_key none key = false
is_unsafe_key (some keys) none = true
is_unsafe_key (some keys) (some key) = not (text_mem key keys)

abbrev pub cut_string : Text → Option ℕ → ℕ
cut_string json none = length json
cut_string json (some i) = i

-- how many characters after the colon are safe
unfoldable pub safe_end : Text → Option (List Text) → Option Text → ℕ → ℕ
safe_end json string_keys last_key end =
    if not (starts_string (drop end json))
    then end
    else if is_unsafe_key string_keys last_key
    then end
    else cut_string json (string_end (end + 1) false (drop (end + 1) json))

abbrev pub prefix_at : Text → Option (List Text) → Option Text → Option ℕ → Text
prefix_at json string_keys last_key none = []
prefix_at json string_keys last_key (some colon) =
    take (safe_end json string_keys last_key (skip_spaces (colon + 1) (drop (colon + 1) json))) json

unfoldable pub safe_arg_prefix : Text → Option (List Text) → Text
safe_arg_prefix json string_keys =
    let v = scan_json json 0 json no_scan in prefix_at json string_keys v.last_key v.last_colon
