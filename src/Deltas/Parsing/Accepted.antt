-- ===== src/Deltas/Parsing/Accepted.antt =====
-- The calls of a whole answer (`parse`, patches/parser-engine.dsml-orphan.py).
use deepseek_v4_flash_mi300x.Prelude.{
  ℕ, ◌≡◌, ◌⊎◌, inl, inr, refl, subst, ◌∙◌, sym, ap, Bool, true, false, not, ◌&&◌, Option, none,
  some, List, [], ◌∷◌, ◌++◌, is_empty, Bool-cases, if◌then◌else◌, arith,
}
use deepseek_v4_flash_mi300x.Parser.{Text, SemanticEvent, ParserState}
use deepseek_v4_flash_mi300x.Parser.Feed.{Lexing, if_given}
use deepseek_v4_flash_mi300x.Parser.Protocol.{outside, fits, IsDsml}
use deepseek_v4_flash_mi300x.Deltas.{ToolCallSlot, Tools}
use deepseek_v4_flash_mi300x.Deltas.Slots.{accepts}
use deepseek_v4_flash_mi300x.Deltas.Messages.{
  Conversion, DeltaMessage, finish_delta, events_to_delta,
}
use deepseek_v4_flash_mi300x.Deltas.Messages.Defined.{
  loop_suppressed, finish_delta_keeps, converts, events_to_delta-HasSlots,
}
use deepseek_v4_flash_mi300x.Deltas.Serving.{
  Options, Server, Delta, new_events, declare, reset_parser,
}
use deepseek_v4_flash_mi300x.Deltas.Serving.Defined.{new_events-Ends, reset-InStep}
use deepseek_v4_flash_mi300x.Deltas.Parsing.{
  ToolCall, Extraction, read_slot, extract_slot, extract_slots, build_extracted_result, extract,
  single_pass_parse, parse,
}

abbrev pub are_accepted : Tools → List ToolCall → Bool
are_accepted t [] = true
are_accepted t (call ∷ calls) = accepts t call.name && are_accepted t calls

are_accepted-append :
    (t : Tools) (xs ys : List ToolCall)
    → are_accepted t xs ≡ true
    → are_accepted t ys ≡ true
    → are_accepted t (xs ++ ys) ≡ true
are_accepted-append t [] ys h k = k
are_accepted-append t (x ∷ xs) ys h k = ground (arith, are_accepted-append t xs ys)

extract_slot_accepted :
    (t : Tools) (x : Extraction) (slot : ToolCallSlot) (cnt : ℕ)
    → let (slot', cnt', calls) = extract_slot t x slot cnt in are_accepted t calls ≡ true
unfolding extract_slot
extract_slot_accepted t x slot cnt = elim (Bool-cases (is_empty slot.name && is_empty slot.args)) [
  | inl nothing ↦ rw nothing refl
  | inr there ↦ elim (Bool-cases (accepts t (read_slot t x slot).0)) [
    | inl ok ↦ rw (there, ok) (rw ok refl)
    | inr refused ↦ rw (there, refused) refl
  ]
]

extract_slots_accepted :
    (t : Tools) (x : Extraction) (slots : List ToolCallSlot) (cnt : ℕ)
    → let (slots', cnt', calls) = extract_slots t x slots cnt in are_accepted t calls ≡ true
unfolding extract_slots
extract_slots_accepted t x [] cnt = refl
extract_slots_accepted t x (slot ∷ slots) cnt =
    let (slot', cnt', calls) = extract_slot t x slot cnt in
    are_accepted-append t calls _ (extract_slot_accepted t x slot cnt)
      (extract_slots_accepted t x slots cnt')

-- while tool calls are suppressed the slots stay as they are
events_to_delta_suppressed :
    (t : Tools) (drops finished : Bool) (c : Conversion) (events : List SemanticEvent)
    → c.suppress_tool_calls ≡ true
    → (c' : Conversion) × (m : Option DeltaMessage) × (events_to_delta t drops finished c events
        ≡ some (c', m))
      × (c'.tool_slots ≡ c.tool_slots)
unfolding events_to_delta
events_to_delta_suppressed t drops finished c events suppressed =
    elim (Bool-cases (is_empty events && is_empty c.deferred_content)) [
      | inl nothing ↦ (c, none, rw nothing refl, refl)
      | inr more ↦
          let (v, v_e, _, stay) = loop_suppressed t c events suppressed in
          let (c', m) = finish_delta drops finished c v in
          (
            c',
            m,
            converts t drops finished c v events more v_e,
            (finish_delta_keeps drops finished c v).0 ∙ stay,
          )
    ]

no_slots :
    (t : Tools) (x : Extraction) (c : Conversion)
    → c.tool_slots ≡ []
    → (build_extracted_result t x c).1 ≡ []
unfolding build_extracted_result extract_slots
no_slots t x c h = rw h refl

abbrev pub given_calls : Option (List ToolCall) → List ToolCall
given_calls none = []
given_calls (some calls) = calls

given_calls-parsed :
    (calls : List ToolCall) → given_calls (if is_empty calls then none else some calls) ≡ calls
given_calls-parsed [] = refl
given_calls-parsed (call ∷ calls) = refl

-- the calls are accepted, and there are none while tool calls are suppressed
abbrev pub IsSound : Tools → Bool → List ToolCall → Type 0
IsSound t suppressed calls =
    (are_accepted t calls ≡ true) × ((suppressed && not (is_empty calls)) ≡ false)

module _ (o : Options) (d : IsDsml o.setup.config) {Scanner Lexer : Type 0}
    (l : Lexing Scanner Lexer) (x : Extraction) where
  extract-IsSound :
      (t : Tools) (sv : Server Scanner Lexer) (c : Conversion) (m : Option DeltaMessage)
      (suppressed : Bool)
      → (suppressed ≡ false) ⊎ (c.tool_slots ≡ [])
      → IsSound t suppressed (build_extracted_result t x c).1
  unfolding build_extracted_result
  extract-IsSound t sv c m suppressed (inl active) =
      (extract_slots_accepted t x c.tool_slots c.history_tool_call_cnt, rw active refl)
  extract-IsSound t sv c m suppressed (inr none_e) =
      let silent = no_slots t x c none_e in
      (
        extract_slots_accepted t x c.tool_slots c.history_tool_call_cnt,
        ap (λ calls. suppressed && not (is_empty calls)) silent ∙ ground arith,
      )

  -- the events of the whole answer are converted
  pub answer_converts :
      (t : Tools) (initial : Option ParserState) (sv : Server Scanner Lexer) (text : Text)
      (ids : List ℕ)
      → fits (if_given initial o.setup.config.initial_state) outside ≡ true
      → let start = reset_parser l o initial sv in
        let (e, scanner, lexer, events) =
          new_events l o true start.engine start.scanner start.lexer text ids in
        (c : Conversion) × (m : Option DeltaMessage) × (events_to_delta t o.drops_blank true
            start.conversion events
          ≡ some (c, m))
        × ((start.conversion.suppress_tool_calls ≡ false) ⊎ (c.tool_slots ≡ []))
  unfolding reset_parser
  answer_converts t initial sv text ids h =
      let start = reset_parser l o initial sv in
      let (e, scanner, lexer, events) =
        new_events l o true start.engine start.scanner start.lexer text ids in
      let (p, n, i, counted, slots) = reset-InStep o d l initial sv h in
      let (k, taken, ends) =
        new_events-Ends o d l start.engine start.scanner start.lexer text ids p n i counted in
      elim (Bool-cases start.conversion.suppress_tool_calls) [
        | inl suppressed ↦
            let (c, m, m_e, stay) =
              events_to_delta_suppressed t o.drops_blank true start.conversion events suppressed in
            (c, m, m_e, inr stay)
        | inr active ↦
            let (c, m, m_e, _) =
              events_to_delta-HasSlots t o.drops_blank true start.conversion p outside n k events
                taken counted ends slots in
            (c, m, m_e, inl active)
      ]

  single_pass_parse-IsSound :
      (t : Tools) (initial : Option ParserState) (sv : Server Scanner Lexer) (text : Text)
      (ids : List ℕ)
      → fits (if_given initial o.setup.config.initial_state) outside ≡ true
      → (sv' : Server Scanner Lexer) × (reasoning : Option Text) × (content : Option Text)
        × (calls : List ToolCall) × (single_pass_parse l o x t initial sv text ids
            ≡ some (sv', reasoning, content, calls))
        × IsSound t sv.conversion.suppress_tool_calls calls
  unfolding single_pass_parse reset_parser
  single_pass_parse-IsSound t initial sv text ids h =
      let start = reset_parser l o initial sv in
      let (e, scanner, lexer, events) =
        new_events l o true start.engine start.scanner start.lexer text ids in
      let sv1 = record start { engine = e; scanner = scanner; lexer = lexer } in
      let (c, m, m_e, quiet) = answer_converts t initial sv text ids h in
      let (sv2, reasoning, text', calls) = extract l o x t sv1 (c, m) in
      (
        sv2,
        reasoning,
        text',
        calls,
        rw (m_e, single_pass_parse) refl,
        extract-IsSound t sv1 c m sv.conversion.suppress_tool_calls quiet,
      )

  -- For a configuration whose tables follow the order of the events and that starts outside
  -- tool calls, any scanner, lexer and tools: a whole answer is parsed without an index out of
  -- range, each of its tool calls has a name that is accepted, and it has none if the request,
  -- or an earlier one, suppresses tool calls.
  pub parse_calls :
      (sv : Server Scanner Lexer) (dl : Delta)
      → fits o.setup.config.initial_state outside ≡ true
      → (sv' : Server Scanner Lexer) × (reasoning : Option Text) × (content : Option Text)
        × (calls : Option (List ToolCall)) × (parse l o x sv dl
            ≡ some (sv', (reasoning, content, calls)))
        × IsSound dl.tools (declare l o sv dl).conversion.suppress_tool_calls (given_calls calls)
  unfolding parse
  parse_calls sv dl h =
      let (sv', reasoning, text, calls, r_e, sound) =
        single_pass_parse-IsSound dl.tools none (declare l o sv dl) dl.text dl.ids h in
      (
        sv',
        reasoning,
        text,
        if is_empty calls then none else some calls,
        rw (r_e, parse) refl,
        subst (IsSound dl.tools (declare l o sv dl).conversion.suppress_tool_calls)
            (sym (given_calls-parsed calls)) sound,
      )
