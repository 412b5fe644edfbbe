-- ===== src/Masks.antt =====
-- The masks that the program writes for powers of two, in a word of 64 bits.
use native.Mathlib.Nat.{mod-eq_of_lt, div-lt_iff_lt-mul, div-div-eq-div-mul, add_comm}
use malloc_kit.Base.{
  ℕ, ◌+◌, ◌-◌, ◌*◌, ◌/◌, ◌%◌, ◌^◌, ◌≤◌, ◌<◌, bit_and, ◌≡◌, sym, ◌∙◌, ap, arith, bit_not,
  wrapping_sub, ◌<<<◌, pow_pos, pow_mono, pow_strict, pow-add,
}
use malloc_kit.Bits.{and_mask, and_above, and_keep_low}

pub pow_split : (k : ℕ) → k ≤ 64 → 2 ^ (64 - k) * 2 ^ k ≡ 2 ^ 64
pow_split k h = sym (pow-add (64 - k) k) ∙ ap (λ (e : ℕ). 2 ^ e) (sub_split k h)
  where
    sub_split : (k : ℕ) → k ≤ 64 → 64 - k + k ≡ 64
    sub_split k h = omega arith

pred_times : (m n : ℕ) → 1 ≤ m → (m - 1) * n + n ≡ m * n
pred_times m n h = rw (← add-mul-one (m - 1) n) (ap (λ (t : ℕ). t * n) (pred_suc m h))
  where
    pred_suc : (m : ℕ) → 1 ≤ m → m - 1 + 1 ≡ m
    pred_suc m h = omega arith

    add-mul-one : (m n : ℕ) → (m + 1) * n ≡ m * n + n
    add-mul-one m n = omega arith

-- The mask `!(2^k - 1)` as ones above bit `k`.
high_mask : (k : ℕ) → k ≤ 64 → bit_not (2 ^ k - 1) ≡ (2 ^ (64 - k) - 1) * 2 ^ k
high_mask k h = omega (
  arith,
  pow_split k h,
  pow_pos k,
  pow_mono k 64 h,
  pred_times (2 ^ (64 - k)) (2 ^ k) (pow_pos (64 - k)),
)

pub quotient_fits : (k x : ℕ) → k ≤ 64 → x < 2 ^ 64 → x / 2 ^ k < 2 ^ (64 - k)
quotient_fits k x h fits = (div-lt_iff_lt-mul (pow_pos k)).1 (rw (pow_split k h) fits)

-- `x & !(2^k - 1)` rounds down to a multiple of `2^k`.
pub and_high_mask :
    (k x : ℕ) → k ≤ 64 → x < 2 ^ 64 → bit_and x (bit_not (2 ^ k - 1)) ≡ x / 2 ^ k * 2 ^ k
and_high_mask k x h fits = rw (
  high_mask k h,
  and_above k (2 ^ (64 - k) - 1) x,
  and_mask (64 - k) (x / 2 ^ k),
  mod-eq_of_lt (quotient_fits k x h fits),
)

pub mask_of_pow : (k : ℕ) → k < 64 → wrapping_sub (2 ^ k) 1 ≡ 2 ^ k - 1
mask_of_pow k h = omega (arith, pow_pos k, pow_strict k 64 h)

-- `1 << k`
pub shift_one : (k : ℕ) → k < 64 → 1 <<< k ≡ 2 ^ k
shift_one k h =
    omega (
      arith,
      mod-eq_of_lt {n = 1 * 2 ^ k} {m = 2 ^ 64} (omega (arith, pow_pos k, pow_strict k 64 h)),
    )

-- `(1 << k) - 1`
pub mask_of_shift : (k : ℕ) → k < 64 → wrapping_sub (1 <<< k) 1 ≡ 2 ^ k - 1
mask_of_shift k h = ap (λ (n : ℕ). wrapping_sub n 1) (shift_one k h) ∙ mask_of_pow k h

-- The complement of `b` ones from bit `s` on: ones above them, and ones below.
hole_mask :
    (s b : ℕ)
    → s + b ≤ 64
    → bit_not ((2 ^ b - 1) * 2 ^ s) ≡ (2 ^ (64 - (s + b)) - 1) * 2 ^ b * 2 ^ s + (2 ^ s - 1)
hole_mask s b h =
    let j : ℕ = 64 - (s + b) in
    let low = pred_times (2 ^ b) (2 ^ s) (pow_pos b) in
    let high = pred_times (2 ^ j) (2 ^ b * 2 ^ s) (pow_pos j) in
    let whole : 2 ^ j * (2 ^ b * 2 ^ s) ≡ 2 ^ 64 =
      ap (λ (t : ℕ). 2 ^ j * t) (sym (pow-add b s) ∙ ap (λ (e : ℕ). 2 ^ e) (add_comm b s))
      ∙ pow_split (s + b) h in
    omega (
      arith,
      low,
      high,
      whole,
      pow_pos s,
      pow_pos j,
      pow_le_times (2 ^ j) (2 ^ b * 2 ^ s) (pow_pos j),
    )
  where
    pow_le_times : (m n : ℕ) → 1 ≤ m → n ≤ m * n
    pow_le_times m n h = grind arith

-- `x & !(((1 << b) - 1) << s)` clears `b` bits from bit `s` on.
pub and_hole :
    (s b x : ℕ)
    → s + b ≤ 64
    → x < 2 ^ 64
    → bit_and x (bit_not ((2 ^ b - 1) * 2 ^ s)) ≡ x / 2 ^ s / 2 ^ b * 2 ^ b * 2 ^ s + x % 2 ^ s
and_hole s b x h fits =
    let j : ℕ = 64 - (s + b) in
    let top : x / 2 ^ s / 2 ^ b ≡ x / 2 ^ (s + b) =
      div-div-eq-div-mul x (2 ^ s) (2 ^ b) ∙ ap (λ (t : ℕ). x / t) (sym (pow-add s b)) in
    let small : x / 2 ^ s / 2 ^ b < 2 ^ j = rw top (quotient_fits (s + b) x h fits) in
    rw (
      hole_mask s b h,
      and_keep_low s ((2 ^ j - 1) * 2 ^ b) x,
      and_above b (2 ^ j - 1) (x / 2 ^ s),
      and_mask j (x / 2 ^ s / 2 ^ b),
      mod-eq_of_lt small,
    )
