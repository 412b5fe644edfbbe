-- ===== src/Buddy/Units.antt =====
-- `sibling` and `parent` of a unit that is aligned to its class.
use native.Mathlib.Nat.{div-add-mod, mul-mod_left, mul-div_cancel, mul-le-mul_right}
use malloc_kit.Base.{
  ℕ, suc, ◌+◌, ◌-◌, ◌*◌, ◌/◌, ◌%◌, ◌^◌, ◌≤◌, ◌<◌, bit_and, bit_not, bit_xor, ◌<<<◌, ◌≡◌, ◌⊎◌, inl,
  inr, arith, ap, sym, ◌∙◌, pow_pos, pow_double,
}
use malloc_kit.Bits.{xor_set, xor_clear}
use malloc_kit.Masks.{shift_one, and_hole, quotient_fits, pow_split}
use malloc_kit.Buddy.{parent, sibling}

-- An aligned unit is the first or the second half of its parent.
pub data Half (unit c : ℕ) : Type 0 where
  first : unit % 2 ^ suc c ≡ 0 → sibling unit c ≡ unit + 2 ^ c → parent unit c ≡ unit → Half unit c
  second :
      2 ^ c ≤ unit
      → (unit - 2 ^ c) % 2 ^ suc c ≡ 0
      → sibling unit c ≡ unit - 2 ^ c
      → parent unit c ≡ unit - 2 ^ c
      → Half unit c

times_one : (n : ℕ) → (2 ^ 1 - 1) * n ≡ n
times_one n = omega arith

parent-eq :
    (unit c : ℕ)
    → c < 64
    → unit < 2 ^ 64
    → unit % 2 ^ c ≡ 0
    → parent unit c ≡ unit / 2 ^ c / 2 * (2 * 2 ^ c)
unfolding parent
parent-eq unit c small fits aligned =
    let hole = and_hole c 1 unit (omega arith) fits in
    let shifted : bit_and unit (bit_not (1 <<< c)) ≡ bit_and unit (bit_not ((2 ^ 1 - 1) * 2 ^ c)) =
      rw (shift_one c small, times_one (2 ^ c)) in
    shifted ∙ hole ∙ flat (unit / 2 ^ c / 2) (2 ^ c) (unit % 2 ^ c) aligned
  where
    flat : (q n r : ℕ) → r ≡ 0 → q * 2 ^ 1 * n + r ≡ q * (2 * n)
    flat q n r h = grind arith

sibling-eq : (unit c : ℕ) → c < 64 → sibling unit c ≡ bit_xor unit (2 ^ c)
unfolding sibling
sibling-eq unit c small = ap (λ (n : ℕ). bit_xor unit n) (shift_one c small)

even_half : (m n q : ℕ) → m ≡ q * 2 → m * n ≡ q * (2 * n)
even_half m n q h = rw h (omega arith)

odd_half : (m n q : ℕ) → m ≡ q * 2 + 1 → m * n ≡ q * (2 * n) + n
odd_half m n q h = rw h (omega arith)

Half-even :
    (unit c : ℕ) → c < 64 → unit < 2 ^ 64 → unit % 2 ^ c ≡ 0 → unit / 2 ^ c % 2 ≡ 0 → Half unit c
Half-even unit c small fits aligned even =
    let m : ℕ = unit / 2 ^ c in
    let whole : unit ≡ m * 2 ^ c = omega (arith, div-add-mod unit (2 ^ c)) in
    let halves : m * 2 ^ c ≡ m / 2 * (2 * 2 ^ c) = even_half m (2 ^ c) (m / 2) (omega arith) in
    first (rw (pow_double c, whole ∙ halves) (mul-mod_left (m / 2) (2 * 2 ^ c)))
      (sibling-eq unit c small ∙ xor_set c unit even)
      (parent-eq unit c small fits aligned ∙ sym halves ∙ sym whole)

Half-odd :
    (unit c : ℕ) → c < 64 → unit < 2 ^ 64 → unit % 2 ^ c ≡ 0 → unit / 2 ^ c % 2 ≡ 1 → Half unit c
Half-odd unit c small fits aligned odd =
    let m : ℕ = unit / 2 ^ c in
    let whole : unit ≡ m * 2 ^ c = omega (arith, div-add-mod unit (2 ^ c)) in
    let halves : m * 2 ^ c ≡ m / 2 * (2 * 2 ^ c) + 2 ^ c =
      odd_half m (2 ^ c) (m / 2) (omega arith) in
    let rest : unit - 2 ^ c ≡ m / 2 * (2 * 2 ^ c) = omega (arith, whole, halves) in
    let flipped : sibling unit c ≡ unit - 2 ^ c =
      omega (arith, sibling-eq unit c small, xor_clear c unit odd) in
    second (omega (arith, whole, halves))
      (rw (pow_double c, rest) (mul-mod_left (m / 2) (2 * 2 ^ c))) flipped
      (parent-eq unit c small fits aligned ∙ sym rest)

pub Half-of_aligned : (unit c : ℕ) → c < 64 → unit < 2 ^ 64 → unit % 2 ^ c ≡ 0 → Half unit c
Half-of_aligned unit c small fits aligned = elim (even_or_odd (unit / 2 ^ c)) [
  | inl even ↦ Half-even unit c small fits aligned even
  | inr odd ↦ Half-odd unit c small fits aligned odd
]
  where
    even_or_odd : (m : ℕ) → (m % 2 ≡ 0) ⊎ (m % 2 ≡ 1)
    even_or_odd m = omega arith

-- An aligned unit leaves room for its cell below 2^64.
pub aligned_fits : (unit k : ℕ) → k ≤ 64 → unit < 2 ^ 64 → unit % 2 ^ k ≡ 0 → unit + 2 ^ k ≤ 2 ^ 64
aligned_fits unit k small fits aligned =
    let d : ℕ = 2 ^ k in
    let below : suc (unit / d) ≤ 2 ^ (64 - k) = quotient_fits k unit small fits in
    omega (
      arith,
      div-add-mod unit d,
      pow_split k small,
      mul-le-mul_right {m = suc (unit / d)} {n = 2 ^ (64 - k)} d below,
    )

-- In a cell of class `c + 1`, the second half is the sibling of the first.
pub sibling_of_parent :
    (unit c : ℕ)
    → suc c < 64
    → unit < 2 ^ 64
    → unit % 2 ^ suc c ≡ 0
    → (sibling unit c ≡ unit + 2 ^ c)
      × (unit % 2 ^ c ≡ 0)
      × ((unit + 2 ^ c) % 2 ^ c ≡ 0)
      × (unit + 2 ^ c < 2 ^ 64)
sibling_of_parent unit c small fits aligned =
    let d : ℕ = 2 ^ c in
    let q : ℕ = unit / (2 * d) in
    let doubled : unit % (2 * d) ≡ 0 = rw (pow_double c) at aligned in
    let whole : unit ≡ q * 2 * d = omega (arith, div-add-mod unit (2 * d)) in
    let quotient : unit / d ≡ q * 2 =
      ap (λ (n : ℕ). n / d) whole ∙ mul-div_cancel (q * 2) (pow_pos c) in
    let even : unit / d % 2 ≡ 0 = omega (arith, quotient) in
    let next : unit + d ≡ (q * 2 + 1) * d = omega (arith, whole) in
    let room = aligned_fits unit (suc c) (omega arith) fits aligned in
    (
      sibling-eq unit c (omega arith) ∙ xor_set c unit even,
      rw whole (mul-mod_left (q * 2) d),
      rw next (mul-mod_left (q * 2 + 1) d),
      omega (arith, room, pow_double c, pow_pos c),
    )
