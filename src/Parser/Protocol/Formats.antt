-- ===== src/Parser/Protocol/Formats.antt =====
-- The tables of the DSML formats follow the order of the events
-- (patches/parser-deepseek-v4.dsml-orphan.py, patches/parser-deepseek-v32.dsml-orphan.py).
use deepseek_v4_flash_mi300x.Prelude.{◌≡◌, refl, Bool, true, some, arith}
use deepseek_v4_flash_mi300x.Parser.{ParserState, content, Terminal, Transition}
use deepseek_v4_flash_mi300x.Parser.Transitions.{ends_reasoning}
use deepseek_v4_flash_mi300x.Parser.Dsml.{
  v32_transitions, v4_transitions, v32_content_events, v4_content_events, deepseek_v4_config,
  deepseek_v32_config,
}
use deepseek_v4_flash_mi300x.Parser.Protocol.{Phase, outside, fits, turns, lands, classes, IsDsml}

v4_texts : (st : ParserState) → classes st (v4_content_events st) ≡ true
unfolding v4_content_events
v4_texts st = ground arith

v4_sound :
    (st : ParserState) (t : Terminal) (p : Phase) (tr : Transition)
    → v4_transitions st t ≡ some tr
    → fits st p ≡ true
    → lands (turns p tr.events) tr.next_state ≡ true
unfolding v4_transitions
v4_sound st t p tr e h = ground arith

v4_validated :
    (st : ParserState) (t : Terminal) (tr : Transition)
    → v4_transitions st t ≡ some tr
    → tr.validate_tool_name ≡ true
    → (st ≡ content) × (tr.next_state ≡ ParserState.tool_name)
unfolding v4_transitions
v4_validated st t tr e h = (ground arith, ground arith)

v4_ending :
    (st : ParserState) (t : Terminal) (p : Phase) (tr : Transition)
    → v4_transitions st t ≡ some tr
    → ends_reasoning tr.events ≡ true
    → fits st p ≡ true
    → p ≡ outside
unfolding v4_transitions
v4_ending st t p tr e h f = ground arith

pub v4-IsDsml : (thinking : Bool) → IsDsml (deepseek_v4_config thinking)
unfolding deepseek_v4_config
v4-IsDsml thinking = record {
  plain_args = refl;
  texts = v4_texts;
  sound = v4_sound;
  validated = v4_validated;
  ending = v4_ending;
}

v32_texts : (st : ParserState) → classes st (v32_content_events st) ≡ true
unfolding v32_content_events
v32_texts st = ground arith

v32_sound :
    (st : ParserState) (t : Terminal) (p : Phase) (tr : Transition)
    → v32_transitions st t ≡ some tr
    → fits st p ≡ true
    → lands (turns p tr.events) tr.next_state ≡ true
unfolding v32_transitions
v32_sound st t p tr e h = ground arith

v32_validated :
    (st : ParserState) (t : Terminal) (tr : Transition)
    → v32_transitions st t ≡ some tr
    → tr.validate_tool_name ≡ true
    → (st ≡ content) × (tr.next_state ≡ ParserState.tool_name)
unfolding v32_transitions
v32_validated st t tr e h = (ground arith, ground arith)

v32_ending :
    (st : ParserState) (t : Terminal) (p : Phase) (tr : Transition)
    → v32_transitions st t ≡ some tr
    → ends_reasoning tr.events ≡ true
    → fits st p ≡ true
    → p ≡ outside
unfolding v32_transitions
v32_ending st t p tr e h f = ground arith

pub v32-IsDsml : IsDsml deepseek_v32_config
unfolding deepseek_v32_config
v32-IsDsml = record {
  plain_args = refl;
  texts = v32_texts;
  sound = v32_sound;
  validated = v32_validated;
  ending = v32_ending;
}
