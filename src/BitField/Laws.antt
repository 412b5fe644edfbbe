-- ===== src/BitField/Laws.antt =====
-- `set` and `get` are inverse, and `set` leaves the other bits of the word.
use native.Mathlib.Nat.{
  mod-eq_of_lt, div-add-mod, mod-lt, mul-add-div, add-mul-mod_self_right, mul-le-mul_right,
  div-div-eq-div-mul,
}
use malloc_kit.Base.{
  ℕ, suc, ◌+◌, ◌-◌, ◌*◌, ◌/◌, ◌%◌, ◌^◌, ◌≤◌, ◌<◌, ◌≡◌, arith, ap, sym, ◌∙◌, pow_pos, pow_mono,
  pow-add, div_of_sum, mod_of_sum,
}
use malloc_kit.Bits.{and_mask, or_above, or_below}
use malloc_kit.Masks.{mask_of_shift, and_hole, quotient_fits, pow_split}
use malloc_kit.BitField.{BitField, get, field_mask, set}

-- A field ends within the word, and is narrower than it.
pub record Fits (f : BitField) : Type 0 where
  pub within : f.shift + f.bits ≤ 64
  pub narrow : f.bits < 64

-- `get` reads the digits of the word from `shift` on, in base `2^bits`.
pub get-eq : (f : BitField) → Fits f → (w : ℕ) → get w f ≡ w / 2 ^ f.shift % 2 ^ f.bits
unfolding get
get-eq f fits w = rw (mask_of_shift f.bits fits.narrow, and_mask f.bits (w / 2 ^ f.shift))

-- The digits above bit `s + b + d`, from those above `s` and `b`.
div_further : (s b t w : ℕ) → s + b ≤ t → w / 2 ^ t ≡ w / 2 ^ s / 2 ^ b / 2 ^ (t - (s + b))
div_further s b t w h =
    let d : ℕ = t - (s + b) in
    let e : 2 ^ t ≡ 2 ^ s * 2 ^ b * 2 ^ d =
      ap (λ (n : ℕ). 2 ^ n) (split s b t h)
      ∙ pow-add (s + b) d
      ∙ ap (λ (n : ℕ). n * 2 ^ d) (pow-add s b) in
    rw (e, div-div-eq-div-mul w (2 ^ s) (2 ^ b), div-div-eq-div-mul w (2 ^ s * 2 ^ b) (2 ^ d))
  where
    split : (s b t : ℕ) → s + b ≤ t → t ≡ s + b + (t - (s + b))
    split s b t h = omega arith

-- The digits from `s` to `s + b` are in the remainder by a higher power.
digits_of_mod : (s b t w : ℕ) → s + b ≤ t → w / 2 ^ s % 2 ^ b ≡ w % 2 ^ t / 2 ^ s % 2 ^ b
digits_of_mod s b t w h =
    let d : ℕ = t - (s + b) in
    let q : ℕ = w / 2 ^ t in
    let r : ℕ = w % 2 ^ t in
    let e : 2 ^ t ≡ 2 ^ s * (2 ^ d * 2 ^ b) =
      ap (λ (n : ℕ). 2 ^ n) (split s b t h)
      ∙ pow-add s (d + b)
      ∙ ap (λ (n : ℕ). 2 ^ s * n) (pow-add d b) in
    let parts : w ≡ 2 ^ s * (2 ^ d * 2 ^ b * q) + r =
      omega (arith, div-add-mod w (2 ^ t), ap (λ (n : ℕ). n * q) e) in
    let lower : w / 2 ^ s ≡ r / 2 ^ s + 2 ^ d * q * 2 ^ b =
      ap (λ (n : ℕ). n / 2 ^ s) parts
      ∙ mul-add-div {m = 2 ^ s} (pow_pos s) (2 ^ d * 2 ^ b * q) r
      ∙ grind arith in
    ap (λ (n : ℕ). n % 2 ^ b) lower ∙ add-mul-mod_self_right (r / 2 ^ s) (2 ^ d * q) (2 ^ b)
  where
    split : (s b t : ℕ) → s + b ≤ t → t ≡ s + (t - (s + b) + b)
    split s b t h = omega arith

-- What `set` makes of a word: the value between the bits above and below the field.
abbrev pub placed : BitField → ℕ → ℕ → ℕ
placed f w v = (w / 2 ^ f.shift / 2 ^ f.bits * 2 ^ f.bits + v) * 2 ^ f.shift + w % 2 ^ f.shift

module _ (f : BitField) (fits : Fits f) where
  open f use {bits, shift}

  product_fits : (v : ℕ) → v < 2 ^ bits → v * 2 ^ shift < 2 ^ 64
  product_fits v hv = omega (
    arith,
    mul-le-mul_right {m = suc v} {n = 2 ^ bits} (2 ^ shift) hv,
    pow-add bits shift,
    pow_mono (bits + shift) 64 (omega (arith, fits.within)),
    pow_pos shift,
  )

  mask-eq : field_mask f ≡ (2 ^ bits - 1) * 2 ^ shift
  unfolding field_mask
  mask-eq =
      rw (mask_of_shift bits fits.narrow)
        (mod-eq_of_lt (product_fits (2 ^ bits - 1) (omega (arith, pow_pos bits))))

  pub set-eq : (w v : ℕ) → w < 2 ^ 64 → v < 2 ^ bits → set w f v ≡ placed f w v
  unfolding set
  set-eq w v hw hv = rw (
    mask-eq,
    and_hole shift bits w fits.within hw,
    mod-eq_of_lt (product_fits v hv),
    or_above shift (w / 2 ^ shift / 2 ^ bits * 2 ^ bits) (w % 2 ^ shift) v
        (mod-lt w (pow_pos shift)),
    or_below bits (w / 2 ^ shift / 2 ^ bits) v hv,
  )

  placed-div : (w v : ℕ) → placed f w v / 2 ^ shift ≡ w / 2 ^ shift / 2 ^ bits * 2 ^ bits + v
  placed-div w v =
      div_of_sum (w / 2 ^ shift / 2 ^ bits * 2 ^ bits + v) (2 ^ shift) (w % 2 ^ shift)
        (mod-lt w (pow_pos shift))

  placed-mod : (w v : ℕ) → placed f w v % 2 ^ shift ≡ w % 2 ^ shift
  placed-mod w v =
      mod_of_sum (w / 2 ^ shift / 2 ^ bits * 2 ^ bits + v) (2 ^ shift) (w % 2 ^ shift)
        (mod-lt w (pow_pos shift))

  placed-top :
      (w v : ℕ) → v < 2 ^ bits → placed f w v / 2 ^ shift / 2 ^ bits ≡ w / 2 ^ shift / 2 ^ bits
  placed-top w v hv = rw (placed-div w v) (div_of_sum (w / 2 ^ shift / 2 ^ bits) (2 ^ bits) v hv)

  -- Reading a field gives what was last written to it, if that fits the field.
  pub get-set : (w v : ℕ) → w < 2 ^ 64 → v < 2 ^ bits → get (set w f v) f ≡ v
  get-set w v hw hv =
      rw (set-eq w v hw hv, get-eq f fits, placed-div w v)
        (mod_of_sum (w / 2 ^ shift / 2 ^ bits) (2 ^ bits) v hv)

  -- The word stays a word.
  pub set-lt : (w v : ℕ) → w < 2 ^ 64 → v < 2 ^ bits → set w f v < 2 ^ 64
  set-lt w v hw hv =
      let q : ℕ = w / 2 ^ shift / 2 ^ bits in
      let top : ℕ = 2 ^ (64 - (shift + bits)) in
      let small : q < top =
        rw (div-div-eq-div-mul w (2 ^ shift) (2 ^ bits), ← pow-add shift bits)
          (quotient_fits (shift + bits) w fits.within hw) in
      let row : suc q * 2 ^ bits ≤ top * 2 ^ bits = mul-le-mul_right (2 ^ bits) small in
      let inner : suc (q * 2 ^ bits + v) ≤ top * 2 ^ bits = omega (arith, row) in
      let outer = mul-le-mul_right (2 ^ shift) inner in
      let whole = pow_split (shift + bits) fits.within in
      let halves = ap (λ (n : ℕ). top * n) (pow-add shift bits) in
      rw (set-eq w v hw hv) (omega (arith, outer, whole, halves, mod-lt w (pow_pos shift)))

  -- A field above keeps its value.
  get-set_above :
      (g : BitField) (w v : ℕ)
      → Fits g
      → shift + bits ≤ g.shift
      → w < 2 ^ 64
      → v < 2 ^ bits
      → get (set w f v) g ≡ get w g
  get-set_above g w v fits_g above hw hv =
      rw (set-eq w v hw hv, get-eq g fits_g, get-eq g fits_g)
        (ap (λ (t : ℕ). t % 2 ^ g.bits)
          (div_further shift bits g.shift (placed f w v) above
            ∙ ap (λ (t : ℕ). t / 2 ^ (g.shift - (shift + bits))) (placed-top w v hv)
            ∙ sym (div_further shift bits g.shift w above)))

  -- A field below keeps its value.
  pub get-set_below :
      (g : BitField) (w v : ℕ)
      → Fits g
      → g.shift + g.bits ≤ shift
      → w < 2 ^ 64
      → v < 2 ^ bits
      → get (set w f v) g ≡ get w g
  get-set_below g w v fits_g below hw hv =
      rw (set-eq w v hw hv, get-eq g fits_g, get-eq g fits_g)
        (digits_of_mod g.shift g.bits shift (placed f w v) below
          ∙ ap (λ (t : ℕ). t / 2 ^ g.shift % 2 ^ g.bits) (placed-mod w v)
          ∙ sym (digits_of_mod g.shift g.bits shift w below))
