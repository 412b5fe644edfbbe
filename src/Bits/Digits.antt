-- ===== src/Bits/Digits.antt =====
-- One equation for the lowest binary digit of each bit operation.
use Prim.Native.Nat.{digits, bitwise, differ, bit_and-bitwise, bit_or-bitwise, bit_xor-bitwise}
use malloc_kit.Base.{
  ℕ, zero, suc, ◌+◌, ◌-◌, ◌*◌, ◌/◌, ◌%◌, ◌≤◌, ◌<◌, min, max, bit_and, bit_or, bit_xor, ◌≡◌, refl,
  arith,
}

-- The recursion on digits is the same for any two amounts of fuel that reach the first operand.
same_digits :
    (rest : ℕ → ℕ) (op : ℕ → ℕ → ℕ) (s t x y : ℕ)
    → x ≤ s
    → x ≤ t
    → digits rest op s x y ≡ digits rest op t x y
same_digits rest op zero zero x y hs ht = refl
same_digits rest op zero (suc t) zero y hs ht = refl
same_digits rest op (suc s) zero zero y hs ht = refl
same_digits rest op (suc s) (suc t) zero y hs ht = refl
same_digits rest op zero t (suc x) y hs ht = absurd (omega arith)
same_digits rest op s zero (suc x) y hs ht = absurd (omega arith)
same_digits rest op (suc s) (suc t) (suc x) y hs ht =
    let half : suc x / 2 ≤ s = omega arith in
    rw (same_digits rest op s t (suc x / 2) (y / 2) half (omega arith))

bitwise_digit :
    (rest : ℕ → ℕ) (op : ℕ → ℕ → ℕ) (x y : ℕ)
    → bitwise rest op (suc x) y ≡ bitwise rest op (suc x / 2) (y / 2) * 2 + op (suc x % 2) (y % 2)
bitwise_digit rest op x y =
    let h : suc x / 2 ≤ suc x / 2 = omega arith in
    omega (arith, same_digits rest op x (suc x / 2) (suc x / 2) (y / 2) (omega arith) h)

pub and_digit : (x y : ℕ) → bit_and x y ≡ bit_and (x / 2) (y / 2) * 2 + min (x % 2) (y % 2)
and_digit zero y = simp bit_and-bitwise (omega arith)
and_digit (suc x) y = simp bit_and-bitwise (bitwise_digit (λ _. 0) min x y)

pub or_digit : (x y : ℕ) → bit_or x y ≡ bit_or (x / 2) (y / 2) * 2 + max (x % 2) (y % 2)
or_digit zero y = simp bit_or-bitwise (omega arith)
or_digit (suc x) y = simp bit_or-bitwise (bitwise_digit (λ r. r) max x y)

pub xor_digit : (x y : ℕ) → bit_xor x y ≡ bit_xor (x / 2) (y / 2) * 2 + differ (x % 2) (y % 2)
xor_digit zero y = simp bit_xor-bitwise (omega arith)
xor_digit (suc x) y = simp bit_xor-bitwise (bitwise_digit (λ r. r) differ x y)

pub differ_zero : (p : ℕ) → differ p 0 ≡ p
differ_zero zero = refl
differ_zero (suc p) = refl

pub differ_one : (p : ℕ) → p < 2 → differ p 1 ≡ 1 - p
differ_one zero h = refl
differ_one (suc p) h = omega (arith, differ_zero p)
