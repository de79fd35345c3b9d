-- ===== src/Scheduler/Chunks.antt =====
-- The arithmetic of chunks: what may be stored, and what a load can reach.
use deepseek_v4_flash_mi300x.Prelude.{
  ℕ, suc, ◌+◌, ◌*◌, ◌/◌, ◌%◌, ◌≤◌, ◌<◌, ◌≡◌, Bool, true, some, leb, Bool-cases, inl, inr, arith,
}
use native.Mathlib.Nat.{div-add-mod, mul_comm, suc-mul, mul-le-mul_right}
use deepseek_v4_flash_mi300x.Scheduler.{is_store_reachable, Group, storable_chunks}

div_mul_le : (n d : ℕ) → n / d * d ≤ n
div_mul_le n d = omega (arith, div-add-mod n d, mul_comm (n / d) d)

-- The tokens of the chunks that may be stored are among the offloadable ones, and their blocks
-- among the allocated ones.
pub storable_chunks_bounds :
    (blocks prompt offloadable : ℕ) (g : Group)
    → let n = storable_chunks blocks prompt g offloadable in
      (n * g.tokens_per_chunk ≤ offloadable) × (n * blocks ≤ g.num_block_ids)
unfolding storable_chunks
storable_chunks_bounds blocks prompt offloadable g =
    let n = storable_chunks blocks prompt g offloadable in
    let t = offloadable / g.tokens_per_chunk in
    let b = g.num_block_ids / blocks in
    let below : n ≤ t = ground arith in
    let allocated : n ≤ b = ground arith in
    (
      omega (
        arith,
        mul-le-mul_right g.tokens_per_chunk below,
        div_mul_le offloadable g.tokens_per_chunk,
      ),
      omega (arith, mul-le-mul_right blocks allocated, div_mul_le g.num_block_ids blocks),
    )

-- With a positive alignment, each chunk of a window that ends at a multiple of the alignment
-- counts as reachable for a store.
pub window_reachable :
    (alignment window chunk end storable q : ℕ) (is_eagle : Bool)
    → 0 < alignment
    → end ≡ q * alignment
    → chunk < end
    → end ≤ chunk + window
    → is_store_reachable chunk storable (some alignment) window is_eagle ≡ true
unfolding is_store_reachable
window_reachable alignment window chunk end storable q is_eagle a e before inside =
    let k = chunk / alignment in
    let whole = div-add-mod chunk alignment in
    let turned = mul_comm k alignment in
    let within : k < q = elim (Bool-cases (leb q k)) [
      | inl beyond ↦ absurd (
          omega (
            arith,
            e,
            whole,
            turned,
            mul-le-mul_right alignment (let s : q ≤ k = ground arith in s),
          ))
      | inr apart ↦ ground arith
    ] in
    let next : suc k * alignment ≤ end =
      rw e (mul-le-mul_right alignment (let s : suc k ≤ q = omega arith in s)) in
    let room : alignment ≤ chunk % alignment + window =
      omega (arith, suc-mul k alignment, next, whole, turned) in
    ground (arith, room)
