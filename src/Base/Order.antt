-- ===== src/Base/Order.antt =====
-- Powers of two, and induction on the order of the native numbers.
use Prim.Native.Nat.{ℕ, zero, suc, ◌+◌, ◌*◌, ◌^◌, ◌≤◌, ◌<◌}
use mathlib.Core.Path.{◌≡◌, ap}
use mathlib.Core.WellFounded.{Acc, WellFounded}
use native.Mathlib.Nat.{pow-suc, one-le-pow, pow-le-pow_right}
use native.Mathlib.Omega.{arith}

accessible : (bound n : ℕ) → n < bound → Acc ◌<◌ n
accessible zero n h = absurd (omega arith)
accessible (suc bound) n h = Acc.intro n (λ m p. accessible bound m (omega arith))

pub lt_wf : WellFounded ◌<◌
lt_wf = record { apply = λ n. accessible (suc n) n (omega arith) }

pub pow_pos : (k : ℕ) → 1 ≤ 2 ^ k
pow_pos k = one-le-pow k 2 (omega arith)

-- 2 ^ (k + 1) is twice 2 ^ k, in the form that `omega` uses.
pub pow_double : (k : ℕ) → 2 ^ suc k ≡ 2 * 2 ^ k
pow_double k = omega (arith, pow-suc 2 k)

pub pow_mono : (i j : ℕ) → i ≤ j → 2 ^ i ≤ 2 ^ j
pow_mono i j h = pow-le-pow_right (omega arith) h

pub pow_strict : (i j : ℕ) → i < j → 2 * 2 ^ i ≤ 2 ^ j
pow_strict i j h = omega (arith, pow_double i, pow_mono (suc i) j h)

pub pow-add : (i j : ℕ) → 2 ^ (i + j) ≡ 2 ^ i * 2 ^ j
pow-add zero j = omega (arith, ap (λ (t : ℕ). 2 ^ t) (zero_plus j))
  where
    zero_plus : (j : ℕ) → 0 + j ≡ j
    zero_plus j = omega arith
pow-add (suc i) j = omega (
  arith,
  ap (λ (t : ℕ). 2 ^ t) (suc_plus i j),
  pow_double (i + j),
  ap (λ (t : ℕ). 2 * t) (pow-add i j),
  ap (λ (t : ℕ). t * 2 ^ j) (pow_double i),
)
  where
    suc_plus : (i j : ℕ) → suc i + j ≡ suc (i + j)
    suc_plus i j = omega arith
