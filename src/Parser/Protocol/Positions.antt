-- ===== src/Parser/Protocol/Positions.antt =====
-- The engine's state against the phase of a tool call, and what a transition or a text leaves of
-- both (patches/streaming-parser-engine.dsml-orphan.py).
use deepseek_v4_flash_mi300x.Prelude.{
  ℕ, ◌≡◌, ◌⊎◌, inl, inr, refl, true, false, Option, none, some, [], if◌then◌else◌, Bool-cases,
  arith,
}
use deepseek_v4_flash_mi300x.Parser.{
  Text, EventType, ParserState, content, tool_args, Transition, Engine, Emitted, is_header,
}
use deepseek_v4_flash_mi300x.Parser.Transitions.{
  emit_events, leaves_args, run_transition, emit_between, emit_classified,
}
use deepseek_v4_flash_mi300x.Parser.Protocol.{
  Phase, outside, naming, in_args, read, fits, turns, lands, classes, read-emit_events,
}

-- no hold: the state fits the phase
pub record Free (e : Engine) (p : Phase) (n : ℕ) : Type 0 where
  pub free : e.hold_active ≡ false
  pub fit : fits e.state p ≡ true
  pub index : e.tool_index ≡ n
  pub unbuffered : e.args_buffer ≡ []

-- a hold: the held events would open the next call
pub record Held (e : Engine) (p : Phase) (n : ℕ) : Type 0 where
  pub active : e.hold_active ≡ true
  pub state : e.state ≡ ParserState.tool_name
  pub prior : e.held_prior_state ≡ content
  pub before : p ≡ outside
  pub prior_index : e.held_prior_tool_index ≡ n
  pub opens : read false outside n e.held_events ≡ some (naming, e.tool_index)
  pub kept : e.skip_tool_parsing ≡ false
  pub unbuffered : e.args_buffer ≡ []

abbrev pub Inv : Engine → Phase → ℕ → Type 0
Inv e p n = Free e p n ⊎ Held e p n

-- The consumer takes the events, and the invariant holds of where it gets to.
abbrev pub Keeps : Emitted → Phase → ℕ → Type 0
Keeps m p n = (q : Phase) × (k : ℕ) × (read false p n m.1 ≡ some (q, k)) × Inv m.0 q k

-- the same, with no hold left
abbrev pub Frees : Emitted → Phase → ℕ → Type 0
Frees m p n = (q : Phase) × (k : ℕ) × (read false p n m.1 ≡ some (q, k)) × Free m.0 q k

pub Frees-Keeps : (m : Emitted) (p : Phase) (n : ℕ) → Frees m p n → Keeps m p n
Frees-Keeps m p n (q, k, taken, f) = (q, k, taken, inl f)

-- the phase after an event of a text, if there is one
abbrev pub text_phase : ParserState → Option EventType → Phase → Phase
text_phase tool_args (some t) p = in_args
text_phase st o p = p

pub emit_between-Free :
    (e : Engine) (text : Text) (p : Phase) (n : ℕ) → Free e p n → Frees (emit_between e text) p n
unfolding emit_between read
emit_between-Free e text p n f = (
  p,
  n,
  ground arith,
  record {
    free = ground arith;
    fit = ground arith;
    index = ground arith;
    unbuffered = ground arith;
  },
)

pub emit_classified-Free :
    (e : Engine) (text : Text) (p : Phase) (n : ℕ) (o : Option EventType)
    → classes e.state o ≡ true
    → Free e p n
    → Frees (emit_classified o e text) p n
unfolding emit_classified read
emit_classified-Free e text p n none h f = emit_between-Free e text p n f
emit_classified-Free e text p n (some t) h f = (
  text_phase e.state (some t) p,
  n,
  ground arith,
  record { free = f.free; fit = ground arith; index = f.index; unbuffered = f.unbuffered },
)

pub lands-some :
    (o : Option Phase) (st : ParserState)
    → lands o st ≡ true
    → (q : Phase) × (o ≡ some q) × (fits st q ≡ true)
lands-some none st h = cc
lands-some (some q) st h = (q, refl, h)

-- a transition whose event types are sound in each phase that fits the state
pub run_transition-Free :
    (e : Engine) (tr : Transition) (value : Text) (p : Phase) (n : ℕ)
    → ((q : Phase) → fits e.state q ≡ true → lands (turns q tr.events) tr.next_state ≡ true)
    → Free e p n
    → Frees (run_transition e tr value) p n
unfolding run_transition read
run_transition-Free e tr value p n sound f =
    let was_header = is_header e.state in
    let header = if was_header then e.message_header_buffer else [] in
    let j = (emit_events was_header header value e.tool_index tr.events).0 in
    elim (Bool-cases (leaves_args e tr)) [
      | inl leaves ↦
          let (q, q_e, q_fits) =
            lands-some (turns in_args tr.events) tr.next_state (sound in_args (ground arith)) in
          (
            q,
            j,
            ground (
              arith,
              read-emit_events was_header header value in_args q e.tool_index tr.events q_e,
            ),
            record {
              free = f.free;
              fit = q_fits;
              index = refl;
              unbuffered = ground (arith, f.unbuffered);
            },
          )
      | inr stays ↦
          let (q, q_e, q_fits) = lands-some (turns p tr.events) tr.next_state (sound p f.fit) in
          (
            q,
            j,
            ground (arith, read-emit_events was_header header value p q e.tool_index tr.events q_e),
            record {
              free = f.free;
              fit = q_fits;
              index = refl;
              unbuffered = ground (arith, f.unbuffered);
            },
          )
    ]
