-- ===== src/Parser/Orphans/Tokens.antt =====
-- One text or terminal: it goes out, it is held, or a recovered tool call starts
-- (patches/streaming-parser-engine.dsml-orphan.py).
use mathlib.Core.List.{append_assoc, append-nil}
use deepseek_v4_flash_mi300x.Prelude.{
  ℕ, ◌≡◌, inl, inr, refl, Bool, true, false, ◌&&◌, ◌||◌, List, [], ◌∷◌, ◌++◌, if◌then◌else◌,
  Bool-cases, arith,
}
use deepseek_v4_flash_mi300x.Parser.{
  Text, EventType, text_chunk, SemanticEvent, event, Terminal, Setup, Engine, join,
}
use deepseek_v4_flash_mi300x.Parser.Transitions.{
  abort_hold, hold_text, emit_for_state, can_grow_into_declared_name,
}
use deepseek_v4_flash_mi300x.Parser.Dsml.{v4_content_events, deepseek_v4_config}
use deepseek_v4_flash_mi300x.Parser.Orphans.{
  texts, has_start, is_all_text, unreleased, Outer, Holding, Waiting, Released, Kept, setup,
}

pub texts-append : (xs ys : List SemanticEvent) → texts (xs ++ ys) ≡ texts xs ++ texts ys
unfolding texts
texts-append [] ys = refl
texts-append (x ∷ xs) ys =
    ground (arith, texts-append xs ys, append_assoc x.value (texts xs) (texts ys))

pub has_start-append :
    (xs ys : List SemanticEvent) → has_start (xs ++ ys) ≡ (has_start xs || has_start ys)
unfolding has_start
has_start-append [] ys = refl
has_start-append (x ∷ xs) ys = ground (arith, has_start-append xs ys)

pub is_all_text-append :
    (xs ys : List SemanticEvent) → is_all_text (xs ++ ys) ≡ (is_all_text xs && is_all_text ys)
unfolding is_all_text
is_all_text-append [] ys = refl
is_all_text-append (x ∷ xs) ys = ground (arith, is_all_text-append xs ys)

join-snoc : (ts : List Text) (t : Text) → join (ts ++ t ∷ []) ≡ join ts ++ t
unfolding join
join-snoc [] t = append-nil t
join-snoc (u ∷ ts) t = rw (join-snoc ts t, append_assoc)

pub unreleased_free : (e : Engine) → e.hold_active ≡ false → unreleased e ≡ []
unfolding unreleased
unreleased_free e h = ground arith

pub unreleased_held : (e : Engine) → e.hold_active ≡ true → unreleased e ≡ join e.held_raw
unfolding unreleased
unreleased_held e h = ground arith

-- what is released first and what is kept after it
pub Kept-append :
    (e e' : Engine) (xs ys : List SemanticEvent) (a b : Text)
    → Released (e, xs) a
    → Kept (e', ys) (unreleased e ++ b)
    → Kept (e', xs ++ ys) (a ++ b)
Kept-append e e' xs ys a b (w, t, only) (inl started) = inl (ground (arith, has_start-append xs ys))
Kept-append e e' xs ys a b (w, t, only) (inr (w', t', only')) = inr (
  w',
  rw (texts-append, append_assoc, t', ← append_assoc, t) refl,
  ground (arith, is_all_text-append xs ys),
)

-- once a call is started it stays so
pub started-append :
    (e' : Engine) (xs ys : List SemanticEvent) (a : Text)
    → has_start xs ≡ true
    → Kept (e', xs ++ ys) a
started-append e' xs ys a h = inl (ground (arith, has_start-append xs ys))

module _ (thinking has_drops : Bool) (named : Terminal → Bool) (resolved : ℕ → Bool) where
  abbrev s : Setup
  s = setup thinking has_drops named resolved

  pub emit_plain :
      (e : Engine) (text : Text)
      → Outer e
      → emit_for_state s e text ≡ (e, event text_chunk text e.tool_index ∷ [])
  unfolding deepseek_v4_config v4_content_events emit_for_state
  emit_plain e text o = ground (arith, o.free, o.outer)

  pub emit_plain-Released :
      (e : Engine) (text : Text) → Outer e → Released (emit_for_state s e text) text
  unfolding texts is_all_text
  emit_plain-Released e text o =
      rw (emit_plain e text o)
        (inl o, rw (unreleased_free e o.free, append-nil, append-nil) refl, refl)

  abort_text :
      (e : Engine) (raw : Text)
      → Holding e
      → (abort_hold s e raw).1 ≡ event text_chunk raw e.held_prior_tool_index ∷ []
  unfolding deepseek_v4_config v4_content_events abort_hold
  abort_text e raw h = ground (arith, h.prior)

  pub abort-Outer : (e : Engine) (raw : Text) → Holding e → Outer (abort_hold s e raw).0
  unfolding deepseek_v4_config v4_content_events abort_hold
  abort-Outer e raw h = record {
    free = ground (arith, h.prior);
    outer = ground (arith, h.prior);
    unbuffered = ground (arith, h.prior, h.unbuffered);
  }

  pub abort-Released : (e : Engine) (raw : Text) → Holding e → Released (abort_hold s e raw) raw
  unfolding texts is_all_text
  abort-Released e raw h =
      let o = abort-Outer e raw h in
      (
        inl o,
        rw
            (
              unreleased_free (abort_hold s e raw).0 o.free,
              abort_text e raw h,
              append-nil,
              append-nil,
            )
            refl,
        rw (abort_text e raw h) refl,
      )

  hold_text-Released :
      (e : Engine) (text : Text)
      → Holding e
      → Released (hold_text e text, []) (unreleased e ++ text)
  unfolding hold_text texts is_all_text
  hold_text-Released e text h = (
    inr (record {
      active = h.active;
      state = h.state;
      prior = h.prior;
      starts = ground (
        arith,
        h.starts,
        has_start-append e.held_events (event EventType.tool_name text e.tool_index ∷ []),
      );
      kept = h.kept;
      unbuffered = h.unbuffered;
    }),
    rw (unreleased_held (hold_text e text) h.active, unreleased_held e h.active)
        (join-snoc e.held_raw text),
    refl,
  )

  emit_held :
      (e : Engine) (text : Text)
      → Holding e
      → emit_for_state s e text ≡ (
          if can_grow_into_declared_name e.allowed_tool_names (join e.held_name ++ text)
          then (hold_text e text, [])
          else abort_hold s e (join e.held_raw ++ text))
  unfolding emit_for_state
  emit_held e text h = ground (arith, h.active, h.state)

  pub emit-Released :
      (e : Engine) (text : Text)
      → Waiting e
      → Released (emit_for_state s e text) (unreleased e ++ text)
  emit-Released e text (inl o) = rw (unreleased_free e o.free) (emit_plain-Released e text o)
  emit-Released e text (inr h) =
      let candidate = join e.held_name ++ text in
      rw (emit_held e text h)
        (elim (Bool-cases (can_grow_into_declared_name e.allowed_tool_names candidate)) [
          | inl grows ↦ rw grows (hold_text-Released e text h)
          | inr stuck ↦
              rw (stuck, unreleased_held e h.active) (abort-Released e (join e.held_raw ++ text) h)
        ])
