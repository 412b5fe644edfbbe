-- ===== src/Page/Region.antt =====
-- Which page an address lies in, and how far two pages are apart.
use native.Mathlib.Nat.{mod-eq_of_lt, div-add-mod, mod-lt, mul-mod_left, mul-div_cancel}
use malloc_kit.Base.{
  ℕ, ◌+◌, ◌*◌, ◌/◌, ◌%◌, ◌^◌, ◌≤◌, ◌<◌, ◌≡◌, ◌==◌, true, some, arith, pow_pos, ◌<<<◌, wrapping_add,
  wrapping_sub, refl, ge→ltb,
}
use malloc_kit.Masks.{shift_one, mask_of_shift, and_high_mask}
use malloc_kit.Bits.{and_mask}
use malloc_kit.Address.{Address}
use malloc_kit.Page.{Page, bytes, is_aligned, containing, end, steps_between, forward, backward}

module _ (log_bytes : ℕ) (small : log_bytes < 64) where
  page_containing-eq :
      (a : Address) → a < 2 ^ 64 → containing log_bytes a ≡ a / 2 ^ log_bytes * 2 ^ log_bytes
  unfolding containing
  page_containing-eq a fits =
      rw (mask_of_shift log_bytes small, and_high_mask log_bytes a (omega arith) fits) refl

  page_is_aligned-eq : (a : Address) → is_aligned log_bytes a ≡ (a % 2 ^ log_bytes == 0)
  unfolding is_aligned
  page_is_aligned-eq a = rw (mask_of_shift log_bytes small, and_mask log_bytes a) refl

  -- The page that contains an address is aligned, holds the address, and is the only aligned page that does.
  page_containing_lem :
      (a : Address)
      → a + 2 ^ log_bytes < 2 ^ 64
      → let page = containing log_bytes a in
        (is_aligned log_bytes page ≡ true)
        × (page ≤ a)
        × (a < end log_bytes page)
        × (containing log_bytes page ≡ page)
  unfolding end bytes
  page_containing_lem a fits =
      let d : ℕ = 2 ^ log_bytes in
      let parts = div-add-mod a d in
      let rest = mod-lt a {m = d} (pow_pos log_bytes) in
      rw
        (
          shift_one log_bytes small,
          page_containing-eq a (omega arith),
          page_is_aligned-eq (a / d * d),
          mul-mod_left (a / d) d,
          page_containing-eq (a / d * d) (omega arith),
          mul-div_cancel (a / d) (pow_pos log_bytes),
        )
        (refl, omega arith, omega arith, refl)

  shifted : (n : ℕ) → n * 2 ^ log_bytes < 2 ^ 64 → n <<< log_bytes ≡ n * 2 ^ log_bytes
  shifted n fits = mod-eq_of_lt fits

  -- `forward` and `steps_between` are inverse, and `backward` undoes `forward`, while the end stays below 2^64.
  page_steps_lem :
      (p : Page) (n : ℕ)
      → p + n * 2 ^ log_bytes < 2 ^ 64
      → (steps_between log_bytes p (forward log_bytes p n) ≡ some n)
        × (backward log_bytes (forward log_bytes p n) n ≡ p)
  unfolding steps_between forward backward
  page_steps_lem p n fits =
      let d : ℕ = 2 ^ log_bytes in
      let sum : wrapping_add p (n * d) ≡ p + n * d = mod-eq_of_lt fits in
      let back : wrapping_sub (p + n * d) (n * d) ≡ p = omega (arith, fits) in
      let gap : wrapping_sub (p + n * d) p ≡ n * d = omega (arith, fits) in
      rw
        (
          shifted n (omega arith),
          sum,
          back,
          gap,
          mul-div_cancel n (pow_pos log_bytes),
          ge→ltb (p + n * d) p (omega arith),
        )
        (refl, refl)
