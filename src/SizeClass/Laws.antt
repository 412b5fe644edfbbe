-- ===== src/SizeClass/Laws.antt =====
-- A size class covers the sizes above half of its bytes, up to its bytes.
use malloc_kit.Base.{
  ℕ, ◌+◌, ◌-◌, ◌*◌, ◌^◌, ◌≤◌, ◌<◌, ◌≡◌, arith, refl, ap, ◌∙◌, pow_pos, pow_mono, trailing_zeros,
  next_power_of_two, log_ceil,
}
use malloc_kit.Powers.{
  log_ceil-le, pow-log_ceil_bounds, exponent_le, next_power_of_two-eq-pow, trailing_zeros-pow,
  trailing_zeros-next_power_of_two,
}
use malloc_kit.Masks.{shift_one}
use malloc_kit.Layout.{Layout, padded_size}
use malloc_kit.Layout.Laws.{IsLayout, pad_to_align_lem}
use malloc_kit.SizeClass.{SizeClass, bytes, from_bytes, from_layout}

module _ (cov : ℕ) where
  pub bytes-eq : (c : SizeClass) → c + cov < 64 → bytes cov c ≡ 2 ^ (c + cov)
  unfolding bytes
  bytes-eq c h = shift_one (c + cov) h

  from_bytes_of_log :
      (n k : ℕ) → trailing_zeros n ≡ k → cov ≤ k → k < 64 → from_bytes cov n ≡ k - cov
  unfolding from_bytes
  from_bytes_of_log n k e h b = omega (arith, e)

  -- `from_bytes` undoes `bytes`.
  from_bytes-bytes : (c : SizeClass) → c + cov < 64 → from_bytes cov (bytes cov c) ≡ c
  from_bytes-bytes c h = rw (bytes-eq c h) (
      from_bytes_of_log (2 ^ (c + cov)) (c + cov) (trailing_zeros-pow (c + cov) h) (omega arith) h
      ∙ cancel c cov)
    where
      cancel : (c cov : ℕ) → c + cov - cov ≡ c
      cancel c cov = omega arith

  -- The class of a layout whose padded size needs at least `2^cov` bytes: a cell of the class
  -- holds the padded layout, and is less than twice as large as it.
  pub from_layout_lem :
      {l : Layout} (v : IsLayout l)
      → cov < 63
      → 2 ^ cov ≤ padded_size l
      → let b = bytes cov (from_layout cov l) in
        (padded_size l ≤ b) × (b < 2 * padded_size l) × (b ≡ next_power_of_two (padded_size l))
  unfolding from_layout
  from_layout_lem {l} v small large =
      let p = pad_to_align_lem v in
      let n : ℕ = padded_size l in
      let k : ℕ = log_ceil n in
      let k_lt : k < 64 = omega (arith, log_ceil-le n 63 (omega arith) (omega arith)) in
      let b = pow-log_ceil_bounds n (omega (arith, pow_pos cov)) (omega arith) in
      let cov_le : cov ≤ k = exponent_le cov k n large b.0 in
      let class : from_bytes cov (next_power_of_two n) ≡ k - cov =
        from_bytes_of_log (next_power_of_two n) k (trailing_zeros-next_power_of_two n (omega arith))
          cov_le k_lt in
      let whole : bytes cov (k - cov) ≡ 2 ^ k =
        bytes-eq (k - cov) (omega arith) ∙ ap (λ (e : ℕ). 2 ^ e) (cancel k cov cov_le) in
      rw (p.0, class, whole, next_power_of_two-eq-pow n (omega arith)) (b.0, b.1, refl)
    where
      cancel : (k cov : ℕ) → cov ≤ k → k - cov + cov ≡ k
      cancel k cov h = omega arith

  -- The class of a layout whose padded size is at most `2^e`.
  pub from_layout-le :
      {l : Layout} (v : IsLayout l) (e : ℕ)
      → cov < 63
      → e < 63
      → 2 ^ cov ≤ padded_size l
      → padded_size l ≤ 2 ^ e
      → from_layout cov l + cov ≤ e
  unfolding from_layout
  from_layout-le {l} v e small few large within =
      let p = pad_to_align_lem v in
      let n : ℕ = padded_size l in
      let k : ℕ = log_ceil n in
      let k_le : k ≤ e = log_ceil-le n e (omega (arith, large, pow_pos cov)) within in
      let b =
        pow-log_ceil_bounds n (omega (arith, pow_pos cov, large))
          (omega (arith, within, pow_mono e 63 (omega arith))) in
      let cov_le : cov ≤ k = exponent_le cov k n large b.0 in
      let class : from_bytes cov (next_power_of_two n) ≡ k - cov =
        from_bytes_of_log (next_power_of_two n) k
          (trailing_zeros-next_power_of_two n (omega (arith, within, pow_mono e 63 (omega arith))))
          cov_le (omega (arith, k_le)) in
      rw (p.0, class) (omega (arith, cov_le, k_le))
