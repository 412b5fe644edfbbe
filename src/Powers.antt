-- ===== src/Powers.antt =====
-- `usize::next_power_of_two`, `trailing_zeros` and `is_power_of_two`, which size classes are
-- computed by.
use native.Mathlib.Nat.{mod_self, mod-eq_of_lt, add-zero}
use native.Mathlib.Decide.{dec_le, dec_lt}
use malloc_kit.Base.{
  ℕ, zero, suc, ◌+◌, ◌*◌, ◌/◌, ◌^◌, ◌≤◌, ◌<◌, ◌≡◌, refl, ap, subst, true, inl, inr, arith, leb,
  tests, Bool-cases, log_from, log_ceil, next_power_of_two, zeros_from, trailing_zeros,
  is_power_of_two, pow_pos, pow_double, pow_mono, pow_strict,
}
use malloc_kit.Bits.{and_mask}

-- `r` is the least exponent from `k` on that reaches `n`.
pub record IsLeastLog (k n r : ℕ) : Type 0 where
  pub reaches : n ≤ 2 ^ r
  pub from : k ≤ r
  pub least : (m : ℕ) → k ≤ m → m < r → 2 ^ m < n

IsLeastLog-here : (k n : ℕ) → n ≤ 2 ^ k → IsLeastLog k n k
IsLeastLog-here k n h = record {
  reaches = h;
  from = omega arith;
  least = λ m p q. absurd (omega arith);
}

IsLeastLog-later : (k n r : ℕ) → 2 ^ k < n → IsLeastLog (suc k) n r → IsLeastLog k n r
IsLeastLog-later k n r more later = record {
  reaches = later.reaches;
  from = omega (arith, later.from);
  least = λ m p q. elim (dec_le m k) [
    | yes low ↦ omega (arith, pow_mono m k low)
    | no high ↦ later.least m (omega arith) q
  ];
}

log_from-IsLeastLog : (fuel k n : ℕ) → n ≤ 2 ^ (k + fuel) → IsLeastLog k n (log_from fuel k n)
unfolding log_from
log_from-IsLeastLog zero k n h = IsLeastLog-here k n (subst (λ (e : ℕ). n ≤ 2 ^ e) (add-zero k) h)
log_from-IsLeastLog (suc fuel) k n h = elim (Bool-cases (leb n (2 ^ k))) [
  | inl fits ↦ rw fits (IsLeastLog-here k n (omega tests))
  | inr more ↦ rw more (
      IsLeastLog-later k n _ (omega tests)
        (log_from-IsLeastLog fuel (suc k) n (subst (λ (e : ℕ). n ≤ 2 ^ e) (shift k fuel) h)))
]
  where
    shift : (k fuel : ℕ) → k + suc fuel ≡ suc k + fuel
    shift k fuel = omega arith

-- The exponent of `next_power_of_two` is the least that reaches the number.
pub log_ceil-IsLeastLog : (n : ℕ) → n ≤ 2 ^ 64 → IsLeastLog 0 n (log_ceil n)
unfolding log_ceil
log_ceil-IsLeastLog n h = log_from-IsLeastLog 64 0 n h

pub log_ceil-le : (n m : ℕ) → n ≤ 2 ^ 64 → n ≤ 2 ^ m → log_ceil n ≤ m
log_ceil-le n m small h = elim (dec_le (log_ceil n) m) [
  | yes p ↦ p
  | no p ↦ omega (arith, (log_ceil-IsLeastLog n small).least m (omega arith) (omega arith))
]

pub log_ceil-ge : (n m : ℕ) → n ≤ 2 ^ 64 → 2 ^ m < n → m < log_ceil n
log_ceil-ge n m small h = elim (dec_lt m (log_ceil n)) [
  | yes p ↦ p
  | no p ↦
      omega (arith, (log_ceil-IsLeastLog n small).reaches, pow_mono (log_ceil n) m (omega arith))
]

pub log_ceil-pow : (k : ℕ) → k ≤ 64 → log_ceil (2 ^ k) ≡ k
log_ceil-pow k h =
    let small : 2 ^ k ≤ 2 ^ 64 = pow_mono k 64 h in
    elim (dec_lt (log_ceil (2 ^ k)) k) [
      | yes p ↦ omega (
        arith,
        (log_ceil-IsLeastLog (2 ^ k) small).reaches,
        pow_strict (log_ceil (2 ^ k)) k p,
        pow_pos (log_ceil (2 ^ k)),
      )
      | no p ↦ omega (arith, log_ceil-le (2 ^ k) k small (omega arith))
    ]

-- Up to 2^63 the power does not overflow.
pub next_power_of_two-eq-pow : (n : ℕ) → n ≤ 2 ^ 63 → next_power_of_two n ≡ 2 ^ log_ceil n
unfolding next_power_of_two
next_power_of_two-eq-pow n h =
    mod-eq_of_lt (omega (arith, pow_mono (log_ceil n) 63 (log_ceil-le n 63 (omega arith) h)))

pub exponent_le : (i j n : ℕ) → 2 ^ i ≤ n → n ≤ 2 ^ j → i ≤ j
exponent_le i j n h k = elim (dec_le i j) [
  | yes p ↦ p
  | no p ↦ absurd (omega (arith, pow_strict j i (omega arith), pow_pos j))
]

-- The next power of two is less than twice the number.
pub pow-log_ceil_bounds :
    (n : ℕ) → 1 ≤ n → n ≤ 2 ^ 64 → (n ≤ 2 ^ log_ceil n) × (2 ^ log_ceil n < 2 * n)
pow-log_ceil_bounds n h small =
    let least = log_ceil-IsLeastLog n small in (least.reaches, upper (log_ceil n) least)
  where
    upper : (r : ℕ) → IsLeastLog 0 n r → 2 ^ r < 2 * n
    upper zero least = omega arith
    upper (suc r) least = omega (arith, pow_double r, least.least r (omega arith) (omega arith))

zeros_from-pow : (fuel k : ℕ) → k < fuel → zeros_from fuel (2 ^ k) ≡ k
unfolding zeros_from
zeros_from-pow zero k h = absurd (omega arith)
zeros_from-pow (suc fuel) zero h = refl
zeros_from-pow (suc fuel) (suc k) h =
    ground (arith, pow_double k, ap (zeros_from fuel) (half k), zeros_from-pow fuel k (omega arith))
  where
    half : (k : ℕ) → 2 ^ suc k / 2 ≡ 2 ^ k
    half k = omega (arith, pow_double k)

pub trailing_zeros-pow : (k : ℕ) → k < 64 → trailing_zeros (2 ^ k) ≡ k
unfolding trailing_zeros
trailing_zeros-pow k h = zeros_from-pow 64 k h

-- `n.next_power_of_two().trailing_zeros()`, by which the program computes size classes.
pub trailing_zeros-next_power_of_two :
    (n : ℕ) → n ≤ 2 ^ 63 → trailing_zeros (next_power_of_two n) ≡ log_ceil n
trailing_zeros-next_power_of_two n h =
    rw (next_power_of_two-eq-pow n h)
      (trailing_zeros-pow (log_ceil n) (omega (arith, log_ceil-le n 63 (omega arith) h)))

pub is_power_of_two-pow : (k : ℕ) → is_power_of_two (2 ^ k) ≡ true
unfolding is_power_of_two
is_power_of_two-pow k = ground (arith, pow_pos k, and_mask k (2 ^ k), mod_self (2 ^ k))
