-- ===== src/Address/Align.antt =====
-- `Address::align_up`, `align_down` and `is_aligned_to` at a power of two.
use native.Mathlib.Nat.{mod-eq_of_lt, mul-mod_left, div-add-mod, mod-lt, add-mod, zero-mod}
use malloc_kit.Base.{
  ℕ, ◌+◌, ◌-◌, ◌*◌, ◌/◌, ◌%◌, ◌^◌, ◌≤◌, ◌<◌, ◌≡◌, arith, ap, ◌∙◌, ◌==◌, pow_pos, pow-add,
}
use malloc_kit.Bits.{and_mask}
use malloc_kit.Masks.{and_high_mask, mask_of_pow}
use malloc_kit.Address.{align_up, align_down, is_aligned_to}

-- At a power of two below 2^64 `align_down` gives the multiple of it at or below the address.
pub align_down-eq : (k a : ℕ) → k < 64 → a < 2 ^ 64 → align_down a (2 ^ k) ≡ a / 2 ^ k * 2 ^ k
unfolding align_down
align_down-eq k a h fits = rw (mask_of_pow k h) (and_high_mask k a (omega arith) fits)

-- `is_aligned_to` tests for a multiple.
pub is_aligned_to-eq : (k a : ℕ) → k < 64 → is_aligned_to a (2 ^ k) ≡ (a % 2 ^ k == 0)
unfolding is_aligned_to
is_aligned_to-eq k a h = rw (mask_of_pow k h, and_mask k a)

pub align_up-eq :
    (k a : ℕ)
    → k < 64
    → a + (2 ^ k - 1) < 2 ^ 64
    → align_up a (2 ^ k) ≡ (a + (2 ^ k - 1)) / 2 ^ k * 2 ^ k
unfolding align_up
align_up-eq k a h fits =
    rw (mask_of_pow k h, mod-eq_of_lt fits) (and_high_mask k (a + (2 ^ k - 1)) (omega arith) fits)

-- Where the sum does not overflow, `align_up` gives the least multiple of the alignment that is not
-- below the address: it is a multiple, and less than one alignment above.
pub align_up_least :
    (k a : ℕ)
    → k < 64
    → a + (2 ^ k - 1) < 2 ^ 64
    → (align_up a (2 ^ k) % 2 ^ k ≡ 0) × (a ≤ align_up a (2 ^ k)) × (align_up a (2 ^ k) < a + 2 ^ k)
align_up_least k a h fits =
    let d : ℕ = 2 ^ k in
    let s : ℕ = a + (d - 1) in
    let split = div-add-mod s d in
    let rest = mod-lt s {m = d} (pow_pos k) in
    rw (align_up-eq k a h fits) (mul-mod_left (s / d) d, omega arith, omega arith)

-- A multiple of a power of two is a multiple of each smaller one.
pub aligned_weaken : (j k x : ℕ) → k ≤ j → x % 2 ^ j ≡ 0 → x % 2 ^ k ≡ 0
aligned_weaken j k x le h =
    let e : 2 ^ j ≡ 2 ^ (j - k) * 2 ^ k =
      ap (λ (n : ℕ). 2 ^ n) (sub_split j k le) ∙ pow-add (j - k) k in
    let q : ℕ = x / 2 ^ j in
    let parts : x ≡ q * 2 ^ (j - k) * 2 ^ k =
      omega (arith, div-add-mod x (2 ^ j), ap (λ (t : ℕ). q * t) e) in
    rw parts (mul-mod_left (q * 2 ^ (j - k)) (2 ^ k))
  where
    sub_split : (j k : ℕ) → k ≤ j → j ≡ j - k + k
    sub_split j k le = omega arith

pub aligned_add : (d x y : ℕ) → x % d ≡ 0 → y % d ≡ 0 → (x + y) % d ≡ 0
aligned_add d x y hx hy = rw (add-mod x y d, hx, hy) (zero-mod d)
