-- ===== src/Buddy/Rounds.antt =====
-- The powers of two that a range of units is released in.
use native.Mathlib.Nat.{div-add-mod, add-mul-mod_self_left}
use malloc_kit.Base.{
  ℕ, zero, suc, ◌-◌, ◌*◌, ◌/◌, ◌%◌, ◌^◌, ◌≤◌, ◌<◌, ◌≡◌, ◌≢◌, ◌⊎◌, inl, inr, arith, sym, ◌∙◌, ap,
  subst, false, ◌==◌, if◌then◌else◌, Bool-cases, ==→eq, ==→ne, pow_pos, pow_double, mod_double,
  ◌<<<◌, trailing_zeros, zeros_from, log_ceil,
}
use malloc_kit.Powers.{exponent_le, pow-log_ceil_bounds, log_ceil-le}
use malloc_kit.Masks.{shift_one}
use malloc_kit.Address.Align.{aligned_weaken}

-- A number is a multiple of the power of two of its trailing zeros.
zeros_from-divides : (fuel n : ℕ) → n % 2 ^ zeros_from fuel n ≡ 0
unfolding zeros_from
zeros_from-divides zero n = omega arith
zeros_from-divides (suc fuel) n = elim (Bool-cases (n % 2 == 1)) [
  | inl odd ↦ rw odd (omega arith)
  | inr even ↦
      rw even (
        doubled n (zeros_from fuel (n / 2)) (==→ne (n % 2) 1 even)
          (zeros_from-divides fuel (n / 2)))
]
  where
    doubled : (n z : ℕ) → n % 2 ≢ 1 → n / 2 % 2 ^ z ≡ 0 → n % 2 ^ suc z ≡ 0
    doubled n z even half = omega (arith, mod_double z n, half, even)

pub trailing_zeros-divides : (n : ℕ) → n % 2 ^ trailing_zeros n ≡ 0
unfolding trailing_zeros
trailing_zeros-divides n = zeros_from-divides 64 n

-- A multiple of a power of two has as many trailing zeros.
zeros_from-le : (fuel n m : ℕ) → m ≤ fuel → n % 2 ^ m ≡ 0 → m ≤ zeros_from fuel n
unfolding zeros_from
zeros_from-le zero n m le h = omega (arith, le)
zeros_from-le (suc fuel) n zero le h = omega arith
zeros_from-le (suc fuel) n (suc m) le h =
    let even : n % 2 ≡ 0 = aligned_weaken (suc m) 1 n (omega arith) h in
    let half : n / 2 % 2 ^ m ≡ 0 = halve n m even h in
    rw (not_odd n even) (omega (arith, zeros_from-le fuel (n / 2) m (omega (arith, le)) half))
  where
    not_odd : (n : ℕ) → n % 2 ≡ 0 → (n % 2 == 1) ≡ false
    not_odd n h = ground (arith, h)

    halve : (n m : ℕ) → n % 2 ≡ 0 → n % 2 ^ suc m ≡ 0 → n / 2 % 2 ^ m ≡ 0
    halve n m even h = omega (arith, mod_double m n, even, h)

pub trailing_zeros-le : (n m : ℕ) → m ≤ 64 → n % 2 ^ m ≡ 0 → m ≤ trailing_zeros n
unfolding trailing_zeros
trailing_zeros-le n m le h = zeros_from-le 64 n m le h

pub aligned_sub : (d x y : ℕ) → y ≤ x → x % d ≡ 0 → y % d ≡ 0 → (x - y) % d ≡ 0
aligned_sub d x y le hx hy =
    sym (add-mul-mod_self_left (x - y) d (y / d))
    ∙ ap (λ (n : ℕ). n % d) (omega (arith, div-add-mod y d, hy, le))
    ∙ hx

-- Rounding a number of units down to a power of two.
unfoldable pub round_down : (units k : ℕ) → ℕ
round_down units k = if units == (1 <<< k) then k else k - 1

pub round_down_lem :
    (units : ℕ)
    → 1 ≤ units
    → units ≤ 2 ^ 62
    → (2 ^ round_down units (log_ceil units) ≤ units) × (round_down units (log_ceil units) ≤ 62)
unfolding round_down
round_down_lem units some_units fits =
    let k : ℕ = log_ceil units in
    let small : k ≤ 62 = log_ceil-le units 62 (omega (arith, fits)) fits in
    let bounds = pow-log_ceil_bounds units some_units (omega (arith, fits)) in
    let shifted : 1 <<< k ≡ 2 ^ k = shift_one k (omega (arith, small)) in
    elim (Bool-cases (units == (1 <<< k))) [
      | inl same ↦ rw same (omega (arith, ==→eq units (1 <<< k) same, shifted), small)
      | inr other ↦ rw other (
        below k units bounds.1 bounds.0 (λ e. ==→ne units (1 <<< k) other (e ∙ sym shifted))
            some_units,
        omega (arith, small),
      )
    ]
  where
    below : (k n : ℕ) → 2 ^ k < 2 * n → n ≤ 2 ^ k → n ≢ 2 ^ k → 1 ≤ n → 2 ^ (k - 1) ≤ n
    below zero n low high ne one = omega (arith, low, high, ne, one)
    below (suc k) n low high ne one = half (pow_double k)
      where
        half : 2 ^ suc k ≡ 2 * 2 ^ k → 2 ^ (suc k - 1) ≤ n
        half e = subst (λ (j : ℕ). 2 ^ j ≤ n) (pred k) (omega (arith, low, e))
          where
            pred : (k : ℕ) → k ≡ suc k - 1
            pred k = omega arith

-- At least the class of a power of two that the number is a multiple of.
pub round_down-ge :
    (units m : ℕ) → 2 ^ m ≤ units → units ≤ 2 ^ 62 → m ≤ round_down units (log_ceil units)
unfolding round_down
round_down-ge units m ge fits =
    let k : ℕ = log_ceil units in
    let small : k ≤ 62 = log_ceil-le units 62 (omega (arith, fits)) fits in
    let bounds = pow-log_ceil_bounds units (omega (arith, ge, pow_pos m)) (omega (arith, fits)) in
    let shifted : 1 <<< k ≡ 2 ^ k = shift_one k (omega (arith, small)) in
    let le : m ≤ k = exponent_le m k units ge bounds.0 in
    elim (Bool-cases (units == (1 <<< k))) [
      | inl same ↦ rw same le
      | inr other ↦
          rw other
            (below m k units le ge bounds.0 (λ e. ==→ne units (1 <<< k) other (e ∙ sym shifted)))
    ]
  where
    below : (m k n : ℕ) → m ≤ k → 2 ^ m ≤ n → n ≤ 2 ^ k → n ≢ 2 ^ k → m ≤ k - 1
    below m k n le low high ne = elim (same_or m k le) [
      | inl same ↦ absurd (ne (omega (arith, low, high, ap (λ (j : ℕ). 2 ^ j) same)))
      | inr less ↦ omega (arith, less)
    ]
      where
        same_or : (m k : ℕ) → m ≤ k → (m ≡ k) ⊎ (m < k)
        same_or m k le = omega (arith, le)
