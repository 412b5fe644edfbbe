-- ===== src/Base/Words.antt =====
-- `usize` of a 64-bit target: arithmetic that wraps as in a release build, and the functions of
-- Rust's standard library on it.
use Prim.Native.Nat.{ℕ, zero, suc, ◌+◌, ◌-◌, ◌*◌, ◌/◌, ◌%◌, ◌^◌, bit_and}
use mathlib.Core.Bool.{Bool, ◌&&◌}
use malloc_kit.Base.Tests.{◌==◌, leb, ltb, if◌then◌else◌}

abbrev pub word_size : ℕ
word_size = 2 ^ 64

abbrev pub wrapping_add : ℕ → ℕ → ℕ
wrapping_add a b = (a + b) % 2 ^ 64

-- `-` of the native numbers stops at 0, so the modulus is added first.
abbrev pub wrapping_sub : ℕ → ℕ → ℕ
wrapping_sub a b = (a + 2 ^ 64 - b) % 2 ^ 64

-- `!x`
abbrev pub bit_not : ℕ → ℕ
bit_not x = 2 ^ 64 - 1 - x

infixl 75 ◌<<<◌ ◌>>>◌
abbrev pub ◌<<<◌ : ℕ → ℕ → ℕ
x <<< k = x * 2 ^ k % 2 ^ 64

abbrev pub ◌>>>◌ : ℕ → ℕ → ℕ
x >>> k = x / 2 ^ k

-- The least `k` of the next `fuel` numbers from `k` on with `n ≤ 2 ^ k`.
unfoldable pub log_from : ℕ → ℕ → ℕ → ℕ
log_from zero k n = k
log_from (suc fuel) k n = let rest = log_from fuel (suc k) n in if leb n (2 ^ k) then k else rest

-- The exponent of `n.next_power_of_two()`; 64 where that overflows.
unfoldable pub log_ceil : ℕ → ℕ
unfolding log_from
log_ceil n = log_from 64 0 n

-- `usize::next_power_of_two`, which is 0 on overflow in a release build.
unfoldable pub next_power_of_two : ℕ → ℕ
unfolding log_ceil
next_power_of_two n = 2 ^ log_ceil n % 2 ^ 64

unfoldable pub zeros_from : ℕ → ℕ → ℕ
zeros_from zero n = 0
zeros_from (suc fuel) n = if n % 2 == 1 then 0 else suc (zeros_from fuel (n / 2))

-- `usize::trailing_zeros`; 64 at 0.
unfoldable pub trailing_zeros : ℕ → ℕ
unfolding zeros_from
trailing_zeros n = zeros_from 64 n

-- `usize::is_power_of_two`: one bit is set.
unfoldable pub is_power_of_two : ℕ → Bool
is_power_of_two n = ltb 0 n && (bit_and n (n - 1) == 0)
