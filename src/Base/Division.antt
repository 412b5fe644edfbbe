-- ===== src/Base/Division.antt =====
-- Quotient and remainder by a variable divisor, given by their defining equation.
use Prim.Native.Nat.{ℕ, suc, ◌+◌, ◌-◌, ◌*◌, ◌/◌, ◌%◌, ◌^◌, ◌≤◌, ◌<◌}
use mathlib.Core.Path.{◌≡◌, ap, sym}
use native.Mathlib.Nat.{
  mul_comm, mul-le-mul_left, mod-eq_of_lt, mod-eq-sub-mod, mod-lt, div-eq_of_lt, mul-add-div,
  div-add-mod, div-div-eq-div-mul,
}
use native.Mathlib.Decide.{dec_lt}
use native.Mathlib.Omega.{arith}
use malloc_kit.Base.Order.{pow_pos, pow_double}

pub div_of_parts : (d q r : ℕ) → r < d → (d * q + r) / d ≡ q
div_of_parts d q r h = omega (arith, mul-add-div {m = d} (omega arith) q r, div-eq_of_lt h)

pub mod_of_parts : (d q r : ℕ) → r < d → (d * q + r) % d ≡ r
mod_of_parts d q r h =
    omega (arith, div-add-mod (d * q + r) d, ap (λ (t : ℕ). d * t) (div_of_parts d q r h))

-- The same with the quotient on the left, as the program's shifts give it.
pub div_of_sum : (q d r : ℕ) → r < d → (q * d + r) / d ≡ q
div_of_sum q d r h = rw mul_comm (div_of_parts d q r h)

pub mod_of_sum : (q d r : ℕ) → r < d → (q * d + r) % d ≡ r
mod_of_sum q d r h = rw mul_comm (mod_of_parts d q r h)

-- The only multiple of `d` strictly between 0 and `2 * d`.
pub multiple_once : (d x : ℕ) → x % d ≡ 0 → 0 < x → x < 2 * d → x ≡ d
multiple_once d x h pos small = elim (dec_lt x d) [
  | yes p ↦ absurd (omega (arith, mod-eq_of_lt p))
  | no p ↦ omega (
    arith,
    mod-eq-sub-mod {n = x} {m = d} (omega arith),
    mod-eq_of_lt {n = x - d} {m = d} (omega arith),
  )
]

-- Two different multiples of `d` are at least `d` apart.
pub multiple_gap : (d x y : ℕ) → x % d ≡ 0 → y % d ≡ 0 → x < y → x + d ≤ y
multiple_gap d x y hx hy h =
    let px = div-add-mod x d in
    let py = div-add-mod y d in
    elim (dec_lt (x / d) (y / d)) [
      | yes p ↦ omega (arith, px, py, mul-le-mul_left {m = suc (x / d)} {n = y / d} d p)
      | no p ↦
          absurd (omega (arith, px, py, mul-le-mul_left {m = y / d} {n = x / d} d (omega arith)))
    ]

-- The quotient and remainder by `2^(k+1)`, from those of the half by `2^k`.
pub div_double : (k x : ℕ) → x / 2 ^ suc k ≡ x / 2 / 2 ^ k
div_double k x = rw pow_double (sym (div-div-eq-div-mul x 2 (2 ^ k)))

double_parts : (d x : ℕ) → 1 ≤ d → x % (2 * d) ≡ x / 2 % d * 2 + x % 2
double_parts d x h =
    let r : ℕ = x / 2 % d in
    let q : ℕ = x / 2 / d in
    let fits : r * 2 + x % 2 < 2 * d = omega (arith, mod-lt (x / 2) {m = d} h) in
    let parts : 2 * d * q + (r * 2 + x % 2) ≡ x = omega (arith, div-add-mod (x / 2) d) in
    rw parts at (mod_of_parts (2 * d) q (r * 2 + x % 2) fits)

pub mod_double : (k x : ℕ) → x % 2 ^ suc k ≡ x / 2 % 2 ^ k * 2 + x % 2
mod_double k x = rw pow_double (double_parts (2 ^ k) x (pow_pos k))
