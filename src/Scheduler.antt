-- ===== src/Scheduler.antt =====
-- patches/offloading-scheduler.dspark-prefix.py: the arithmetic of offloaded chunks, and the lookup
-- of a request's external prefix under the fail-open policy. The offloading manager is not part of
-- the repository: what it answers for a key is an argument.
use deepseek_v4_flash_mi300x.Prelude.{
  ℕ, zero, suc, ◌+◌, ◌-◌, ◌*◌, ◌/◌, ◌%◌, min, max, Bool, true, false, not, ◌&&◌, ◌||◌, Option, none,
  some, List, [], ◌∷◌, length, ltb, leb, ◌==◌, if◌then◌else◌,
}
pub mod Prefix
pub mod Window
pub mod Chunks
pub mod Matching

-- `LookupResult` of the manager
pub data Found : Type 0 where
  hit hit_pending retry miss : Found

-- the loop of `_maximal_prefix_lookup`, with its two variables
unfoldable pub scan_prefix : (ℕ → Found) → List ℕ → ℕ → Bool → Option ℕ
scan_prefix manager [] hits deferred = if deferred then none else some hits
scan_prefix manager (key ∷ keys) hits deferred = elim (manager key) [
  | hit ↦ scan_prefix manager keys (suc hits) deferred
  | hit_pending ↦ scan_prefix manager keys (suc hits) true
  | retry ↦ scan_prefix manager keys hits true
  | miss ↦ if deferred then none else some hits
]

-- `_maximal_prefix_lookup`
unfoldable pub maximal_prefix_lookup : (ℕ → Found) → List ℕ → Option ℕ
maximal_prefix_lookup manager keys = scan_prefix manager keys 0 false

abbrev pub streak : Found → ℕ → ℕ
streak hit n = suc n
streak hit_pending n = suc n
streak retry n = 0
streak miss n = 0

abbrev pub defers : Found → Bool
defers hit_pending = true
defers retry = true
defers _ = false

abbrev pub unless : Bool → ℕ → Option ℕ
unless deferred n = if deferred then none else some n

-- the loop of `_sliding_window_lookup`, over the keys from the last one down
unfoldable pub scan_window : (ℕ → Found) → ℕ → List ℕ → ℕ → Bool → Option ℕ
scan_window manager size [] hits deferred = unless deferred hits
scan_window manager size (key ∷ before) hits deferred =
    let hits' = streak (manager key) hits in
    let deferred' = deferred || defers (manager key) in
    let rest = scan_window manager size before hits' deferred' in
    if hits' == size then unless deferred' (length before + size) else rest

abbrev pub reverse_onto : List ℕ → List ℕ → List ℕ
reverse_onto [] ys = ys
reverse_onto (x ∷ xs) ys = reverse_onto xs (x ∷ ys)

-- `_sliding_window_lookup`
unfoldable pub sliding_window_lookup : (ℕ → Found) → ℕ → List ℕ → Option ℕ
sliding_window_lookup manager size keys = scan_window manager size (reverse_onto keys []) 0 false

abbrev pub one_if : Bool → ℕ
one_if true = 1
one_if false = 0

-- `is_store_reachable_swa_chunk`; `position >= length - tail` may have a negative right side
unfoldable pub is_store_reachable : ℕ → ℕ → Option ℕ → ℕ → Bool → Bool
is_store_reachable chunk storable none window is_eagle = true
is_store_reachable chunk storable (some alignment) window is_eagle =
    let position = chunk % alignment in
    let segment = min alignment (storable - (chunk - position)) in
    leb segment (position + (window + one_if is_eagle))

pub record Group : Type 0 where
  pub tokens_per_chunk : ℕ
  pub is_eagle_group : Bool
  pub num_block_ids : ℕ  -- `len(block_ids)`
  pub next_stored_chunk_idx : ℕ
  pub num_hit_chunks : ℕ

-- `storable_chunks`
unfoldable pub storable_chunks : ℕ → ℕ → Group → ℕ → ℕ
storable_chunks blocks_per_chunk num_prompt_tokens g offloadable =
    let chunks = offloadable / g.tokens_per_chunk in
    let stable =
      if g.is_eagle_group && ltb num_prompt_tokens offloadable then chunks - 1 else chunks in
    min stable (g.num_block_ids / blocks_per_chunk)

-- `advance_stored_idx`, for one group
unfoldable pub advance_stored_idx : ℕ → ℕ → ℕ → Group → Group
advance_stored_idx blocks_per_chunk num_prompt_tokens offloadable g = record g {
  next_stored_chunk_idx =
      max g.next_stored_chunk_idx
        (storable_chunks blocks_per_chunk num_prompt_tokens g offloadable);
}

-- `update_num_hit_chunks`, for one group
unfoldable pub update_num_hit_chunks : ℕ → Group → Group
update_num_hit_chunks cached g = record g { num_hit_chunks = cached / g.tokens_per_chunk }

abbrev pub capped : Option ℕ → ℕ → ℕ
capped none n = n
capped (some limit) n = min n limit

-- `_calc_num_offloadable_tokens`
unfoldable pub offloadable_tokens : Option ℕ → Bool → ℕ → ℕ → ℕ → ℕ
offloadable_tokens max_offload prompt_only num_tokens num_prompt computed =
    let num = capped max_offload (min computed num_tokens) in
    if prompt_only then min num num_prompt else num
