-- ===== src/Deltas/Serving/Defined.antt =====
-- The slots that the deltas of a stream ask for (`parse_delta`,
-- patches/parser-engine.dsml-orphan.py).
use deepseek_v4_flash_mi300x.Prelude.{
  ℕ, ◌≡◌, inl, inr, refl, ◌∙◌, Bool, true, false, Option, some, List, [], ◌∷◌, arith,
}
use deepseek_v4_flash_mi300x.Parser.{Text, SemanticEvent, ParserState, Engine}
use deepseek_v4_flash_mi300x.Parser.Feed.{Lexing, feed, if_given, reset}
use deepseek_v4_flash_mi300x.Parser.Streams.{Stream}
use deepseek_v4_flash_mi300x.Parser.Protocol.{
  Phase, outside, read, ends_counted, fits, IsDsml, read-append, read_end,
}
use deepseek_v4_flash_mi300x.Parser.Protocol.Positions.{Inv}
use deepseek_v4_flash_mi300x.Parser.Protocol.Runs.{feed-Keeps, declared-Inv}
use deepseek_v4_flash_mi300x.Parser.Protocol.Endings.{
  is_counted, read_counted, read_ends, ends_counted-append, finish-Ends,
}
use deepseek_v4_flash_mi300x.Deltas.Messages.{
  Conversion, DeltaMessage, declared_tool_names, check_skip_tool_parsing,
}
use deepseek_v4_flash_mi300x.Deltas.Messages.Defined.{HasSlots, events_to_delta-HasSlots}
use deepseek_v4_flash_mi300x.Deltas.Serving.{
  Options, Server, Delta, new_events, declare, settle, convert, parse_delta, parse_deltas,
  reset_parser,
}

module _ (o : Options) (d : IsDsml o.setup.config) {Scanner Lexer : Type 0}
    (l : Lexing Scanner Lexer) where
  -- the invariant between deltas: the engine is in order and the slots keep up with its calls
  abbrev pub InStep : Server Scanner Lexer → Type 0
  InStep sv =
      (p : Phase) × (n : ℕ) × Inv sv.engine p n × (is_counted p n ≡ true) × HasSlots sv.conversion n

  convert-HasSlots :
      (finished : Bool) (dl : Delta) (sv : Server Scanner Lexer) (p q : Phase) (n k : ℕ)
      (events : List SemanticEvent)
      → read true p n events ≡ some (q, k)
      → is_counted p n ≡ true
      → ends_counted events ≡ true
      → HasSlots sv.conversion n
      → (r : Conversion × Option DeltaMessage) × (convert l o finished dl sv events
          ≡ some (settle l o dl sv r))
        × HasSlots r.0 k
  unfolding convert
  convert-HasSlots finished dl sv p q n k events h counted ends slots =
      let (c, m, m_e, slots') =
        events_to_delta-HasSlots dl.tools o.drops_blank finished sv.conversion p q n k events h
          counted ends slots in
      ((c, m), rw (m_e, convert) refl, slots')

  declare-HasSlots :
      (sv : Server Scanner Lexer) (dl : Delta) (n : ℕ)
      → HasSlots sv.conversion n
      → HasSlots (declare l o sv dl).conversion n
  unfolding check_skip_tool_parsing
  declare-HasSlots sv dl n (inl suppressed) = inl (ground arith)
  declare-HasSlots sv dl n (inr h) = inr h

  -- a delta that is not the last
  parse_delta-InStep :
      (sv : Server Scanner Lexer) (dl : Delta)
      → InStep sv
      → (sv' : Server Scanner Lexer) × (m : Option DeltaMessage) × (parse_delta l o false sv dl
          ≡ some (sv', m))
        × InStep sv'
  unfolding parse_delta new_events
  parse_delta-InStep sv dl (p, n, i, counted, slots) =
      let sv1 = declare l o sv dl in
      let j =
        declared-Inv o.setup d l sv.engine (declared_tool_names dl.request.tools)
          sv1.conversion.suppress_tool_calls p n i in
      let (e, scanner, lexer, events) =
        feed l o.setup sv1.engine sv1.scanner sv1.lexer dl.text dl.ids in
      let (q, k, taken, j') =
        feed-Keeps o.setup d l sv1.engine sv1.scanner sv1.lexer dl.text dl.ids p n j in
      let (r, r_e, slots') =
        convert-HasSlots false dl (record sv1 { engine = e; scanner = scanner; lexer = lexer }) p q
          n k events (read_end p q n k events taken) counted
          (read_ends p q n k events taken counted) (declare-HasSlots sv dl n slots) in
      let sv2 = record sv1 { engine = e; scanner = scanner; lexer = lexer } in
      let (sv', m) = settle l o dl sv2 r in
      (sv', m, r_e, (q, k, j', read_counted false p q n k events taken counted, slots'))

  -- the events of the last delta
  pub new_events-Ends :
      (e : Engine) (scanner : Scanner) (lexer : Lexer) (text : Text) (ids : List ℕ) (p : Phase)
      (n : ℕ)
      → Inv e p n
      → is_counted p n ≡ true
      → let (e', scanner', lexer', events) = new_events l o true e scanner lexer text ids in
        (k : ℕ) × (read true p n events ≡ some (outside, k)) × (ends_counted events ≡ true)
  unfolding new_events
  new_events-Ends e scanner lexer text ids p n i counted =
      let (e1, scanner1, lexer1, events) = feed l o.setup e scanner lexer text ids in
      let (q, k, taken, j) = feed-Keeps o.setup d l e scanner lexer text ids p n i in
      let counted' = read_counted false p q n k events taken counted in
      let st : Stream Scanner Lexer = record {
        engine = e1;
        scanner = scanner1;
        lexer = lexer1;
        emitted = [];
      } in
      let (k', closed, ends, _, _) = finish-Ends o.setup d l st q k counted' j in
      (
        k',
        read-append true p q n k events _ (read_end p q n k events taken) ∙ closed,
        ends_counted-append events _ (read_ends p q n k events taken counted) ends,
      )

  -- the last delta
  last-Defined :
      (sv : Server Scanner Lexer) (dl : Delta)
      → InStep sv
      → (sv' : Server Scanner Lexer) × (m : Option DeltaMessage) × (parse_delta l o true sv dl
          ≡ some (sv', m))
  unfolding parse_delta
  last-Defined sv dl (p, n, i, counted, slots) =
      let sv1 = declare l o sv dl in
      let j =
        declared-Inv o.setup d l sv.engine (declared_tool_names dl.request.tools)
          sv1.conversion.suppress_tool_calls p n i in
      let (e, scanner, lexer, events) =
        new_events l o true sv1.engine sv1.scanner sv1.lexer dl.text dl.ids in
      let (k, taken, ends) =
        new_events-Ends sv1.engine sv1.scanner sv1.lexer dl.text dl.ids p n j counted in
      let sv2 = record sv1 { engine = e; scanner = scanner; lexer = lexer } in
      let (r, r_e, _) =
        convert-HasSlots true dl sv2 p outside n k events taken counted ends
          (declare-HasSlots sv dl n slots) in
      let (sv', m) = settle l o dl sv2 r in (sv', m, r_e)

  deltas-InStep :
      (sv : Server Scanner Lexer) (ds : List Delta)
      → InStep sv
      → (sv' : Server Scanner Lexer) × (ms : List (Option DeltaMessage)) × (parse_deltas l o sv ds
          ≡ some (sv', ms))
        × InStep sv'
  unfolding parse_deltas
  deltas-InStep sv [] i = (sv, [], refl, i)
  deltas-InStep sv (dl ∷ ds) i =
      let (sv1, m, m_e, i1) = parse_delta-InStep sv dl i in
      let (sv2, ms, ms_e, i2) = deltas-InStep sv1 ds i1 in
      (sv2, m ∷ ms, rw (m_e, parse_deltas) (rw ms_e refl), i2)

  pub reset-InStep :
      (initial : Option ParserState) (sv : Server Scanner Lexer)
      → fits (if_given initial o.setup.config.initial_state) outside ≡ true
      → InStep (reset_parser l o initial sv)
  unfolding reset_parser reset
  reset-InStep initial sv h = (
    outside,
    0,
    inl (record { free = refl; fit = h; index = refl; unbuffered = refl }),
    refl,
    inr (omega arith),
  )

  -- For a configuration whose tables follow the order of the events, any scanner, lexer and
  -- tools: from a parser reset to a state outside tool calls, any deltas of any requests, and
  -- one last delta after them, are each answered, so no event of the engine asks for a slot
  -- that is not there.
  pub slots_found :
      (initial : Option ParserState) (sv : Server Scanner Lexer) (ds : List Delta) (dl : Delta)
      → fits (if_given initial o.setup.config.initial_state) outside ≡ true
      → (sv' : Server Scanner Lexer) × (ms : List (Option DeltaMessage)) × (parse_deltas l o
            (reset_parser l o initial sv)
            ds
          ≡ some (sv', ms))
        × (sv'' : Server Scanner Lexer) × (m : Option DeltaMessage) × (parse_delta l o true sv' dl
            ≡ some (sv'', m))
  slots_found initial sv ds dl h =
      let (sv', ms, ms_e, i) = deltas-InStep _ ds (reset-InStep initial sv h) in
      let (sv'', m, m_e) = last-Defined sv' dl i in (sv', ms, ms_e, sv'', m, m_e)
