-- ===== src/Deltas/Messages/Defined.antt =====
-- The slots that the events of a message ask for (`_events_to_delta`,
-- patches/parser-engine.dsml-orphan.py).
use deepseek_v4_flash_mi300x.Prelude.{
  ℕ, zero, suc, ◌-◌, ◌≡◌, ◌≤◌, ◌<◌, ◌⊎◌, inl, inr, refl, subst, ◌∙◌, sym, ap, Bool, true, false,
  not, ◌&&◌, ◌||◌, Option, none, some, List, [], ◌∷◌, is_empty, length, length-append, ltb,
  Bool-cases, Option-cases, arith,
}
use deepseek_v4_flash_mi300x.Parser.{
  EventType, text_chunk, reasoning_start, reasoning_chunk, reasoning_end, tool_call_start,
  arg_value_chunk, tool_call_end, SemanticEvent,
}
use deepseek_v4_flash_mi300x.Parser.Protocol.{Phase, turn, count_start, read, is_end, ends_counted}
use deepseek_v4_flash_mi300x.Parser.Protocol.Endings.{is_counted, turn_counted}
use deepseek_v4_flash_mi300x.Deltas.{ToolCallSlot, Tools}
use deepseek_v4_flash_mi300x.Deltas.Slots.{Handled, handle_arg_chunk, handle_tool_end}
use deepseek_v4_flash_mi300x.Deltas.Messages.{
  Loop, new_slots, ensure_slot, position, slot_at, set_slot, change_slot, handle_tool_name,
  handle_type, handle_events, Conversion, start_loop, finish_delta, settle_content, DeltaMessage,
  events_to_delta,
}

length-new_slots : (n : ℕ) → length (new_slots n) ≡ n
length-new_slots zero = refl
length-new_slots (suc n) = omega (arith, length-new_slots n)

ensure_slot-le : (slots : List ToolCallSlot) (n : ℕ) → n ≤ length (ensure_slot slots n)
unfolding ensure_slot
ensure_slot-le slots n =
    omega (
      arith,
      length-append slots (new_slots (n - length slots)),
      length-new_slots (n - length slots),
    )

length-set_slot :
    (slots : List ToolCallSlot) (i : ℕ) (slot : ToolCallSlot)
    → length (set_slot slots i slot) ≡ length slots
unfolding set_slot
length-set_slot [] i slot = refl
length-set_slot (s ∷ slots) zero slot = refl
length-set_slot (s ∷ slots) (suc i) slot = omega (arith, length-set_slot slots i slot)

position_there :
    (slots : List ToolCallSlot) (n : ℕ) → 0 < n → n ≤ length slots → position slots n ≡ some (n - 1)
unfolding position
position_there slots n h l = ground arith

-- The loop goes on, with that many slots at least.
abbrev pub Reaches : Option Loop → ℕ → Type 0
Reaches o n = (v : Loop) × (o ≡ some v) × (n ≤ length v.slots)

change_slot-Reaches :
    (handle : ToolCallSlot → ℕ → Handled) (v : Loop) (n : ℕ)
    → 0 < n
    → n ≤ length v.slots
    → Reaches (change_slot handle v (position v.slots n)) n
unfolding change_slot
change_slot-Reaches handle v n h l = rw (position_there v.slots n h l) (
  _,
  refl,
  omega (
    arith,
    length-set_slot v.slots (n - 1) (handle (slot_at v.slots (n - 1)) v.history_tool_call_cnt).0,
  ),
)

at_index :
    (handle : ToolCallSlot → ℕ → Handled) (v : Loop) (m n : ℕ)
    → m ≡ n
    → 0 < m
    → n ≤ length v.slots
    → Reaches (change_slot handle v (position v.slots m)) n
at_index handle v m n e h l =
    let (v', v_e, l') = change_slot-Reaches handle v m h (omega (arith, e, l)) in
    (v', v_e, omega (arith, e, l'))

handle_type-Reaches :
    (ty : EventType) (t : Tools) (v : Loop) (ev : SemanticEvent) (p q : Phase) (n : ℕ)
    → turn true p ty ≡ some q
    → ev.tool_index ≡ count_start ty n
    → is_counted p n ≡ true
    → (not (is_end ty) || ltb 0 ev.tool_index) ≡ true
    → n ≤ length v.slots
    → Reaches (handle_type ty t false v ev) (count_start ty n)
unfolding handle_type
handle_type-Reaches text_chunk t v ev p q n h i c e l = (_, refl, ground arith)
handle_type-Reaches reasoning_start t v ev p q n h i c e l = (v, refl, l)
handle_type-Reaches reasoning_chunk t v ev p q n h i c e l = (_, refl, l)
handle_type-Reaches reasoning_end t v ev p q n h i c e l = (_, refl, l)
handle_type-Reaches tool_call_start t v ev p q n h i c e l =
    (_, refl, omega (arith, i, ensure_slot-le v.slots ev.tool_index))
handle_type-Reaches EventType.tool_name t v ev p q n h i c e l =
    at_index (handle_tool_name ev.value) v ev.tool_index n i (ground arith) l
handle_type-Reaches arg_value_chunk t v ev p q n h i c e l =
    at_index (handle_arg_chunk t ev.tool_index ev.value) v ev.tool_index n i (ground arith) l
handle_type-Reaches tool_call_end t v ev p q n h i c e l =
    let there : ltb (length v.slots) ev.tool_index ≡ false = ground arith in
    rw there (at_index (handle_tool_end t ev.tool_index) v ev.tool_index n i (ground arith) l)

handle_events-Reaches :
    (t : Tools) (v : Loop) (p q : Phase) (n k : ℕ) (events : List SemanticEvent)
    → read true p n events ≡ some (q, k)
    → is_counted p n ≡ true
    → ends_counted events ≡ true
    → n ≤ length v.slots
    → Reaches (handle_events t false v events) k
unfolding handle_events read ends_counted
handle_events-Reaches t v p q n k [] h c e l = (v, refl, ground arith)
handle_events-Reaches t v p q n k (ev ∷ events) h c e l =
    elim (Option-cases (turn true p ev.type)) [
      | inl none_e ↦ absurd (ground arith)
      | inr (r, r_e) ↦
          let m = count_start ev.type n in
          let here : ev.tool_index ≡ m = ground arith in
          let (v', v_e, l') =
            handle_type-Reaches ev.type t v ev p r n r_e here c (ground arith) l in
          rw (v_e, handle_events)
            (handle_events-Reaches t v' r q m k events (ground arith)
              (turn_counted true p r ev n r_e c) (ground arith) l')
    ]

-- while tool calls are suppressed no slot is read or changed, and no delta is made
handle_type_suppressed :
    (ty : EventType) (t : Tools) (v : Loop) (ev : SemanticEvent)
    → (v' : Loop) × (handle_type ty t true v ev ≡ some v')
      × (v'.deltas ≡ v.deltas)
      × (v'.slots ≡ v.slots)
unfolding handle_type
handle_type_suppressed text_chunk t v ev = (_, refl, ground arith, ground arith)
handle_type_suppressed reasoning_start t v ev = (_, refl, refl, refl)
handle_type_suppressed reasoning_chunk t v ev = (_, refl, refl, refl)
handle_type_suppressed reasoning_end t v ev = (_, refl, refl, refl)
handle_type_suppressed tool_call_start t v ev = (_, refl, refl, refl)
handle_type_suppressed EventType.tool_name t v ev = (_, refl, refl, refl)
handle_type_suppressed arg_value_chunk t v ev = (_, refl, refl, refl)
handle_type_suppressed tool_call_end t v ev = (_, refl, refl, refl)

handle_events_suppressed :
    (t : Tools) (v : Loop) (events : List SemanticEvent)
    → (v' : Loop) × (handle_events t true v events ≡ some v')
      × (v'.deltas ≡ v.deltas)
      × (v'.slots ≡ v.slots)
unfolding handle_events
handle_events_suppressed t v [] = (v, refl, refl, refl)
handle_events_suppressed t v (ev ∷ events) =
    let (v', v_e, same, there) = handle_type_suppressed ev.type t v ev in
    let (v'', rest_e, kept, stay) = handle_events_suppressed t v' events in
    (v'', rw (v_e, handle_events) rest_e, kept ∙ same, stay ∙ there)

-- the loop of a conversion that suppresses tool calls
pub loop_suppressed :
    (t : Tools) (c : Conversion) (events : List SemanticEvent)
    → c.suppress_tool_calls ≡ true
    → (v : Loop) × (handle_events t c.suppress_tool_calls (start_loop c) events ≡ some v)
      × (v.deltas ≡ [])
      × (v.slots ≡ c.tool_slots)
loop_suppressed t c events suppressed =
    let (v, v_e, kept, stay) = handle_events_suppressed t (start_loop c) events in
    (v, ap (λ b. handle_events t b (start_loop c) events) suppressed ∙ v_e, kept, stay)

-- Every call with a slot number up to `n` has its slot, or tool calls are suppressed.
abbrev pub HasSlots : Conversion → ℕ → Type 0
HasSlots c n = (c.suppress_tool_calls ≡ true) ⊎ (n ≤ length c.tool_slots)

pub finish_delta_keeps :
    (drops finished : Bool) (c : Conversion) (v : Loop)
    → let (c', m) = finish_delta drops finished c v in
      (c'.tool_slots ≡ v.slots) × (c'.suppress_tool_calls ≡ c.suppress_tool_calls)
unfolding finish_delta settle_content
finish_delta_keeps drops finished c v = (ground arith, ground arith)

loop-HasSlots :
    (t : Tools) (c : Conversion) (p q : Phase) (n k : ℕ) (events : List SemanticEvent)
    → read true p n events ≡ some (q, k)
    → is_counted p n ≡ true
    → ends_counted events ≡ true
    → HasSlots c n
    → (v : Loop) × (handle_events t c.suppress_tool_calls (start_loop c) events ≡ some v)
      × ((c.suppress_tool_calls ≡ true) ⊎ (k ≤ length v.slots))
loop-HasSlots t c p q n k events h counted ends (inl suppressed) =
    let (v, v_e, _, _) = loop_suppressed t c events suppressed in (v, v_e, inl suppressed)
loop-HasSlots t c p q n k events h counted ends (inr l) = elim (Bool-cases c.suppress_tool_calls) [
  | inl suppressed ↦
      let (v, v_e, _, _) = loop_suppressed t c events suppressed in (v, v_e, inl suppressed)
  | inr active ↦
      let (v, v_e, l') = handle_events-Reaches t (start_loop c) p q n k events h counted ends l in
      (v, ap (λ b. handle_events t b (start_loop c) events) active ∙ v_e, inr l')
]

nothing_counted :
    (p q : Phase) (n k : ℕ) (events : List SemanticEvent)
    → read true p n events ≡ some (q, k)
    → is_empty events ≡ true
    → k ≡ n
unfolding read
nothing_counted p q n k [] h e = ground arith
nothing_counted p q n k (ev ∷ events) h e = ground arith

pub converts :
    (t : Tools) (drops finished : Bool) (c : Conversion) (v : Loop) (events : List SemanticEvent)
    → (is_empty events && is_empty c.deferred_content) ≡ false
    → handle_events t c.suppress_tool_calls (start_loop c) events ≡ some v
    → events_to_delta t drops finished c events ≡ some (finish_delta drops finished c v)
unfolding events_to_delta
converts t drops finished c v events more h = rw (more, h) refl

-- Events in order are converted, and the slots keep up with the calls.
pub events_to_delta-HasSlots :
    (t : Tools) (drops finished : Bool) (c : Conversion) (p q : Phase) (n k : ℕ)
    (events : List SemanticEvent)
    → read true p n events ≡ some (q, k)
    → is_counted p n ≡ true
    → ends_counted events ≡ true
    → HasSlots c n
    → (c' : Conversion) × (m : Option DeltaMessage) × (events_to_delta t drops finished c events
        ≡ some (c', m))
      × HasSlots c' k
unfolding events_to_delta
events_to_delta-HasSlots t drops finished c p q n k events h counted ends slots =
    elim (Bool-cases (is_empty events && is_empty c.deferred_content)) [
      | inl nothing ↦ (
        c,
        none,
        rw nothing refl,
        subst (HasSlots c) (sym (nothing_counted p q n k events h (ground arith))) slots,
      )
      | inr more ↦
          let (v, v_e, slots') = loop-HasSlots t c p q n k events h counted ends slots in
          let (same, kept) = finish_delta_keeps drops finished c v in
          let (c', m) = finish_delta drops finished c v in
          (
            c',
            m,
            converts t drops finished c v events more v_e,
            elim slots' [
              | inl suppressed ↦ inl (kept ∙ suppressed)
              | inr l ↦ inr (omega (arith, l, ap length same))
            ],
          )
    ]
