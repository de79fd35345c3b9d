-- ===== src/Parser/Args/Streaming.antt =====
-- Streaming the arguments neither loses nor reorders a character
-- (`_feed_args_text`, patches/streaming-parser-engine.dsml-orphan.py).
use mathlib.Core.List.{append_assoc, append-nil}
use deepseek_v4_flash_mi300x.Prelude.{
  ℕ, ◌+◌, ◌<◌, ◌≡◌, ◌⊎◌, inl, inr, refl, ◌∙◌, sym, ap, Bool, true, false, ◌||◌, List, [], ◌∷◌, ◌++◌,
  length, length-append, take, drop, ◌==◌, if◌then◌else◌, Bool-cases, All, All-append, arith,
}
use deepseek_v4_flash_mi300x.Parser.{Text, SemanticEvent, event, arg_value_chunk, Engine, Emitted}
use deepseek_v4_flash_mi300x.Parser.Args.{
  flush_safe_args, flush_all, close_brace, classify_char, feed_args_char, feed_args_text,
}

abbrev pub is_closer : ℕ → Bool
is_closer ch = ch == b'}' || ch == b']'

abbrev pub IsCloser : ℕ → Type 0
IsCloser ch = is_closer ch ≡ true

-- the values of the argument chunks, in order
abbrev pub chunk_values : List SemanticEvent → Text
chunk_values [] = []
chunk_values (ev ∷ events) = ev.value ++ chunk_values events

chunk_values-append :
    (xs ys : List SemanticEvent) → chunk_values (xs ++ ys) ≡ chunk_values xs ++ chunk_values ys
chunk_values-append [] ys = refl
chunk_values-append (x ∷ xs) ys = rw (chunk_values-append xs ys, append_assoc) refl

take-length : (xs : Text) → take (length xs) xs ≡ xs
take-length [] = refl
take-length (x ∷ xs) = rw (take-length xs) refl

drop-length : (xs : Text) → drop (length xs) xs ≡ []
drop-length [] = refl
drop-length (x ∷ xs) = drop-length xs

-- nothing is marked as safe and not sent, and only closing braces are held back
pub record HoldsBack (e : Engine) : Type 0 where
  pub sent : e.args_safe_end ≡ 0
  pub closers : All IsCloser e.args_buffer

-- what went out and what is buffered is `text`
abbrev pub Streams : Emitted → Text → Type 0
Streams m text = (chunk_values m.1 ++ m.0.args_buffer ≡ text) × HoldsBack m.0

flush_all_lem :
    (e : Engine)
    → 0 < length e.args_buffer
    → flush_all e ≡ (
      record e { args_buffer = []; args_safe_end = 0 },
      event arg_value_chunk e.args_buffer e.tool_index ∷ [],
    )
unfolding flush_all flush_safe_args
flush_all_lem e h = ground (arith, take-length e.args_buffer, drop-length e.args_buffer)

flush_all-Streams : (e : Engine) → 0 < length e.args_buffer → Streams (flush_all e) e.args_buffer
flush_all-Streams e h =
    rw (flush_all_lem e h)
      (append-nil _ ∙ append-nil e.args_buffer, record { sent = refl; closers = tt })

-- a character flushes the buffer, or it is a brace that is held back
abbrev Flushes : Engine → Emitted → Type 0
Flushes e m = (e' : Engine) × (e'.args_buffer ≡ e.args_buffer) × (m ≡ flush_all e')

structural_cases :
    (e : Engine) (ch : ℕ)
    → e.args_escape_next ≡ false
    → e.args_in_string ≡ false
    → (ch == b'"') ≡ false
    → Flushes e (classify_char e ch) ⊎ ((classify_char e ch ≡ (close_brace e, [])) × IsCloser ch)
unfolding classify_char
structural_cases e ch plain between other = elim (Bool-cases (ch == b'{' || ch == b'[')) [
  | inl opens ↦ inl (record e { args_brace_depth = e.args_brace_depth + 1 }, refl, ground arith)
  | inr others ↦ elim (Bool-cases (is_closer ch)) [
    | inr scalar ↦ inl (e, refl, ground arith)
    | inl closes ↦ elim (Bool-cases ((close_brace e).args_brace_depth == 0)) [
      | inl top ↦ inr (ground arith, closes)
      | inr inner ↦ inl (close_brace e, refl, ground arith)
    ]
  ]
]

classify_cases :
    (e : Engine) (ch : ℕ)
    → Flushes e (classify_char e ch) ⊎ ((classify_char e ch ≡ (close_brace e, [])) × IsCloser ch)
unfolding classify_char
classify_cases e ch = elim (Bool-cases e.args_escape_next) [
  | inl escaped ↦ inl (record e { args_escape_next = false }, refl, ground arith)
  | inr plain ↦ elim (Bool-cases e.args_in_string) [
    | inl inside ↦ inl (
      if ch == b'\\'
          then record e { args_escape_next = true }
          else if ch == b'"'
          then record e { args_in_string = false }
          else e,
      ground arith,
      ground arith,
    )
    | inr between ↦ elim (Bool-cases (ch == b'"')) [
      | inl quote ↦ inl (record e { args_in_string = true }, refl, ground arith)
      | inr other ↦ structural_cases e ch plain between other
    ]
  ]
]

feed_args_char-Streams :
    (e : Engine) (ch : ℕ) → HoldsBack e → Streams (feed_args_char e ch) (e.args_buffer ++ ch ∷ [])
unfolding feed_args_char
feed_args_char-Streams e ch h =
    let next = record e { args_buffer = e.args_buffer ++ ch ∷ [] } in
    elim (classify_cases next ch) [
      | inl (e', same, flushes) ↦
          rw (flushes, ← same)
            (flush_all-Streams e'
              (omega (arith, ap length same, length-append e.args_buffer (ch ∷ []))))
      | inr (held, closer) ↦ rw held (
        refl,
        record {
          sent = h.sent;
          closers = All-append IsCloser e.args_buffer (ch ∷ []) h.closers (closer, tt);
        },
      )
    ]

-- From an engine that has nothing marked as safe and holds back only closing braces, whatever
-- text is fed: the chunks that go out, followed by the buffer, are the old buffer followed by
-- the text, and again nothing is marked as safe and only closing braces are held back.
pub args_streamed :
    (e : Engine) (text : Text)
    → HoldsBack e
    → let (e', events) = feed_args_text e text in
      (chunk_values events ++ e'.args_buffer ≡ e.args_buffer ++ text) × HoldsBack e'
unfolding feed_args_text
args_streamed e [] h = (sym (append-nil e.args_buffer), h)
args_streamed e (ch ∷ text) h =
    let (e', events) = feed_args_char e ch in
    let (first, h') = feed_args_char-Streams e ch h in
    let (rest, h'') = args_streamed e' text h' in
    (rw (chunk_values-append, append_assoc, rest, ← append_assoc, first, append_assoc) refl, h'')
