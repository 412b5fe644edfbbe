-- ===== src/Region/Laws.antt =====
-- An address inside a block leads back to the block.
use malloc_kit.Base.{
  ℕ, ◌+◌, ◌-◌, ◌*◌, ◌/◌, ◌%◌, ◌^◌, ◌≤◌, ◌<◌, ◌≡◌, arith, refl, true, pow_pos, div_of_sum,
}
use native.Mathlib.Nat.{mul-mod_left, div-add-mod, mod-lt}
use malloc_kit.Masks.{shift_one}
use malloc_kit.Address.{Address}
use malloc_kit.Address.Align.{align_down-eq, is_aligned_to-eq}
use malloc_kit.Region.{bytes, end, is_aligned, align, containing}

module _ (log_bytes meta_size : ℕ) (small : log_bytes < 64) where
  bytes-eq : bytes log_bytes meta_size ≡ 2 ^ log_bytes
  unfolding bytes
  bytes-eq = shift_one log_bytes small

  -- Every address from the start of an aligned block to its end is in that block, and no other.
  pub containing-eq :
      (block a : Address)
      → block % 2 ^ log_bytes ≡ 0
      → block ≤ a
      → a < block + 2 ^ log_bytes
      → a < 2 ^ 64
      → containing log_bytes meta_size a ≡ block
  unfolding containing align
  containing-eq block a aligned low high fits =
      let d : ℕ = 2 ^ log_bytes in
      let q : ℕ = block / d in
      let parts = div-add-mod block d in
      let inner : q * d + (a - block) ≡ a = omega (arith, parts) in
      let quotient : a / d ≡ q = rw inner at (div_of_sum q d (a - block) (omega arith)) in
      rw (shift_one log_bytes small, align_down-eq log_bytes a small fits, quotient)
        (omega (arith, parts))

  -- What `containing` returns is aligned, and holds the address.
  pub containing_lem :
      (a : Address)
      → a + 2 ^ log_bytes < 2 ^ 64
      → let block = containing log_bytes meta_size a in
        (is_aligned log_bytes meta_size block ≡ true)
        × (block ≤ a)
        × (a < end log_bytes meta_size block)
  unfolding containing align is_aligned end
  containing_lem a fits =
      let d : ℕ = 2 ^ log_bytes in
      let parts = div-add-mod a d in
      let rest = mod-lt a {m = d} (pow_pos log_bytes) in
      rw
        (
          shift_one log_bytes small,
          align_down-eq log_bytes a small (omega arith),
          is_aligned_to-eq log_bytes (a / d * d) small,
          mul-mod_left (a / d) d,
        )
        (refl, omega arith, omega arith)
