-- ===== src/Bits.antt =====
-- Masks, shifts and disjoint fields of machine words, as arithmetic.
mod Digits
use Digits.{and_digit, or_digit, xor_digit, differ_zero, differ_one}
use mathlib.Core.WellFounded
use Prim.Native.Nat.{differ}
use mathlib.Core.Path.{ap₂}
use malloc_kit.Base.{
  ℕ, zero, suc, ◌+◌, ◌-◌, ◌*◌, ◌/◌, ◌%◌, ◌^◌, ◌≤◌, ◌<◌, bit_and, bit_or, bit_xor, ◌≡◌, refl, ap,
  arith, lt_wf, pow_pos, pow_double, mod_double, div_double,
}

-- From half of a number to the number, hence the strong induction.
and_zero : (x : ℕ) → bit_and x 0 ≡ 0
and_zero x = WellFounded.induction lt_wf {C = λ n. bit_and n 0 ≡ 0} x from_half
  where
    from_half : (a : ℕ) → (smaller : (b : ℕ) → b < a → bit_and b 0 ≡ 0) → bit_and a 0 ≡ 0
    from_half zero smaller = refl
    from_half (suc a) smaller =
        omega (arith, and_digit (suc a) 0, smaller (suc a / 2) (omega arith))

or_zero : (x : ℕ) → bit_or x 0 ≡ x
or_zero x = WellFounded.induction lt_wf {C = λ n. bit_or n 0 ≡ n} x from_half
  where
    from_half : (a : ℕ) → (smaller : (b : ℕ) → b < a → bit_or b 0 ≡ b) → bit_or a 0 ≡ a
    from_half zero smaller = refl
    from_half (suc a) smaller = omega (arith, or_digit (suc a) 0, smaller (suc a / 2) (omega arith))

xor_zero : (x : ℕ) → bit_xor x 0 ≡ x
xor_zero x = WellFounded.induction lt_wf {C = λ n. bit_xor n 0 ≡ n} x from_half
  where
    from_half : (a : ℕ) → (smaller : (b : ℕ) → b < a → bit_xor b 0 ≡ b) → bit_xor a 0 ≡ a
    from_half zero smaller = refl
    from_half (suc a) smaller =
        omega
          (arith, xor_digit (suc a) 0, differ_zero (suc a % 2), smaller (suc a / 2) (omega arith))

mul_pow_double : (m k : ℕ) → m * 2 ^ suc k ≡ 2 * (m * 2 ^ k)
mul_pow_double m k = omega (arith, ap (λ (t : ℕ). m * t) (pow_double k))

half_mask : (k : ℕ) → (2 ^ suc k - 1) / 2 ≡ 2 ^ k - 1
half_mask k = omega (arith, pow_double k, pow_pos k)

-- `x & (2^k - 1)`: the remainder by `2^k`.
pub and_mask : (k x : ℕ) → bit_and x (2 ^ k - 1) ≡ x % 2 ^ k
and_mask zero x = omega (arith, and_zero x)
and_mask (suc k) x = omega (
  arith,
  and_digit x (2 ^ suc k - 1),
  pow_double k,
  pow_pos k,
  ap (λ (m : ℕ). bit_and (x / 2) m) (half_mask k),
  and_mask k (x / 2),
  mod_double k x,
)

half_of_double : (x y : ℕ) → x ≡ 2 * y → x / 2 ≡ y
half_of_double x y h = omega arith

mod_of_double : (x y : ℕ) → x ≡ 2 * y → x % 2 ≡ 0
mod_of_double x y h = omega arith

half_fits : (x k : ℕ) → x < 2 ^ suc k → x / 2 < 2 ^ k
half_fits x k h = omega (arith, pow_double k)

div_one : (x : ℕ) → x / 2 ^ 0 ≡ x
div_one x = omega arith

times_one : (x : ℕ) → x * 2 ^ 0 ≡ x
times_one x = omega arith

keep_none : (h : ℕ) → h * 2 ^ 0 + (2 ^ 0 - 1) ≡ h
keep_none h = omega arith

keep_zero : (h l : ℕ) → l < 1 → h * 2 ^ 0 + l ≡ h
keep_zero h l fits = omega arith

below_one : (l : ℕ) → l < 1 → l ≡ 0
below_one l fits = omega arith

half_of_keep : (k h : ℕ) → (h * 2 ^ suc k + (2 ^ suc k - 1)) / 2 ≡ h * 2 ^ k + (2 ^ k - 1)
half_of_keep k h = omega (arith, mul_pow_double h k, pow_double k, pow_pos k)

half_of_sum : (k h l : ℕ) → (h * 2 ^ suc k + l) / 2 ≡ h * 2 ^ k + l / 2
half_of_sum k h l = omega (arith, mul_pow_double h k)

-- A mask of low bits that are all clear: `x & (h << k)`.
pub and_above : (k h x : ℕ) → bit_and x (h * 2 ^ k) ≡ bit_and (x / 2 ^ k) h * 2 ^ k
and_above zero h x =
    omega (arith, ap (bit_and x) (times_one h), ap (λ (y : ℕ). bit_and y h) (div_one x))
and_above (suc k) h x = omega (
  arith,
  and_digit x (h * 2 ^ suc k),
  mul_pow_double h k,
  ap (bit_and (x / 2)) (half_of_double (h * 2 ^ suc k) (h * 2 ^ k) (mul_pow_double h k)),
  and_above k h (x / 2),
  mul_pow_double (bit_and (x / 2 ^ suc k) h) k,
  ap (λ (q : ℕ). bit_and q h * 2 ^ k) (div_double k x),
)

-- A mask of low bits that are all set: `x & (h << k | (2^k - 1))`.
pub and_keep_low :
    (k h x : ℕ) → bit_and x (h * 2 ^ k + (2 ^ k - 1)) ≡ bit_and (x / 2 ^ k) h * 2 ^ k + x % 2 ^ k
and_keep_low zero h x =
    omega (arith, ap (λ (y : ℕ). bit_and y h) (div_one x), ap (bit_and x) (keep_none h))
and_keep_low (suc k) h x = omega (
  arith,
  and_digit x (h * 2 ^ suc k + (2 ^ suc k - 1)),
  ap (bit_and (x / 2)) (half_of_keep k h),
  and_keep_low k h (x / 2),
  mul_pow_double h k,
  pow_double k,
  pow_pos k,
  mul_pow_double (bit_and (x / 2 ^ suc k) h) k,
  ap (λ (q : ℕ). bit_and q h * 2 ^ k) (div_double k x),
  mod_double k x,
)

-- `(h << k | l) | (v << k)` with `l` of `k` bits.
pub or_above :
    (k h l v : ℕ) → l < 2 ^ k → bit_or (h * 2 ^ k + l) (v * 2 ^ k) ≡ bit_or h v * 2 ^ k + l
or_above zero h l v fits = omega (arith, ap₂ bit_or (keep_zero h l (omega arith)) (times_one v))
or_above (suc k) h l v fits = omega (
  arith,
  or_digit (h * 2 ^ suc k + l) (v * 2 ^ suc k),
  ap₂ bit_or (half_of_sum k h l) (half_of_double (v * 2 ^ suc k) (v * 2 ^ k) (mul_pow_double v k)),
  or_above k h (l / 2) v (half_fits l k fits),
  mul_pow_double h k,
  mul_pow_double v k,
  mul_pow_double (bit_or h v) k,
)

-- `(h << k) | l` with `l` of `k` bits.
pub or_below : (k h l : ℕ) → l < 2 ^ k → bit_or (h * 2 ^ k) l ≡ h * 2 ^ k + l
or_below zero h l fits =
    omega (arith, ap₂ bit_or (times_one h) (below_one l (omega arith)), or_zero h)
or_below (suc k) h l fits = omega (
  arith,
  or_digit (h * 2 ^ suc k) l,
  ap (λ (y : ℕ). bit_or y (l / 2))
      (half_of_double (h * 2 ^ suc k) (h * 2 ^ k) (mul_pow_double h k)),
  or_below k h (l / 2) (half_fits l k fits),
  mul_pow_double h k,
)

-- `x ^ (1 << k)` sets bit `k` where it is clear, and clears it where it is set.
pub xor_set : (k x : ℕ) → x / 2 ^ k % 2 ≡ 0 → bit_xor x (2 ^ k) ≡ x + 2 ^ k
xor_set zero x h = omega (arith, xor_digit x 1, differ_one (x % 2), xor_zero (x / 2))
xor_set (suc k) x h = omega (
  arith,
  xor_digit x (2 ^ suc k),
  pow_double k,
  ap (λ (m : ℕ). bit_xor (x / 2) m) (half_of_double (2 ^ suc k) (2 ^ k) (pow_double k)),
  differ_zero (x % 2),
  ap (λ (m : ℕ). differ (x % 2) m) (mod_of_double (2 ^ suc k) (2 ^ k) (pow_double k)),
  xor_set k (x / 2) (rw div_double at h),
)

pub xor_clear : (k x : ℕ) → x / 2 ^ k % 2 ≡ 1 → bit_xor x (2 ^ k) + 2 ^ k ≡ x
xor_clear zero x h = omega (arith, xor_digit x 1, differ_one (x % 2), xor_zero (x / 2))
xor_clear (suc k) x h = omega (
  arith,
  xor_digit x (2 ^ suc k),
  pow_double k,
  ap (λ (m : ℕ). bit_xor (x / 2) m) (half_of_double (2 ^ suc k) (2 ^ k) (pow_double k)),
  differ_zero (x % 2),
  ap (λ (m : ℕ). differ (x % 2) m) (mod_of_double (2 ^ suc k) (2 ^ k) (pow_double k)),
  xor_clear k (x / 2) (rw div_double at h),
)
