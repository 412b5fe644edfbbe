-- ===== src/Intrusive/Laws.antt =====
-- Where the cells lie, and how many units they have.
use malloc_kit.Base.{
  ℕ, ◌+◌, ◌*◌, ◌/◌, ◌%◌, ◌^◌, ◌≤◌, ◌<◌, ◌≡◌, max, arith, refl, ◌∙◌, ap, pow_mono, wrapping_add,
  next_power_of_two, log_ceil,
}
use malloc_kit.Powers.{
  next_power_of_two-eq-pow, pow-log_ceil_bounds, trailing_zeros-pow, log_ceil-le, log_ceil-pow,
}
use malloc_kit.Buddy.{FreeList, size_class}
use malloc_kit.Intrusive.{unit_to_cell, cell_to_unit, process_input_units, cell_units}

-- The cell of `2^k` units holds the bytes, if they are a multiple of 8, and its header.
pub cell_units_lem :
    (bytes : ℕ)
    → bytes ≤ 2 ^ 62
    → bytes % 8 ≡ 0
    → let k : ℕ = log_ceil (bytes / 8 + 1) in
      (cell_units bytes ≡ 2 ^ k) × (bytes + 8 ≤ 2 ^ k * 8) × (k ≤ 60)
unfolding cell_units process_input_units
cell_units_lem bytes small aligned =
    let n : ℕ = bytes / 8 + 1 in
    let sum : wrapping_add (bytes / 2 ^ 3) 1 ≡ n = omega (arith, small) in
    let bounds = pow-log_ceil_bounds n (omega arith) (omega (arith, small)) in
    (
      rw sum (next_power_of_two-eq-pow n (omega (arith, small))),
      omega (arith, bounds.0, aligned),
      log_ceil-le n 60 (omega (arith, small)) (omega (arith, small)),
    )

-- The class of a power of two of units that is not below the least class is its exponent.
pub size_class-pow : (f : FreeList) (k : ℕ) → k < 64 → size_class f (2 ^ k) ≡ max k f.min_size_class
unfolding size_class
size_class-pow f k small = rw (next_power_of_two-pow k small, trailing_zeros-pow k small) refl
  where
    next_power_of_two-pow : (k : ℕ) → k < 64 → next_power_of_two (2 ^ k) ≡ 2 ^ k
    next_power_of_two-pow k h =
        next_power_of_two-eq-pow (2 ^ k) (pow_mono k 63 (omega arith))
        ∙ ap (λ (e : ℕ). 2 ^ e) (log_ceil-pow k (omega arith))

-- Units and addresses correspond while the address fits a word.
pub cell_to_unit-unit_to_cell :
    (base unit : ℕ) → base + unit * 8 < 2 ^ 64 → cell_to_unit base (unit_to_cell base unit) ≡ unit
unfolding cell_to_unit unit_to_cell
cell_to_unit-unit_to_cell base unit fits =
    let shifted : unit * 2 ^ 3 % 2 ^ 64 ≡ unit * 8 = omega (arith, fits) in omega (arith, fits)
