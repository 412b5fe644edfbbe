-- ===== src/Layout/Laws.antt =====
-- Padding and extension of layouts that `Layout::from_size_align` accepts.
use native.Mathlib.Nat.{div-add-mod, mod-lt, mul-mod_left}
use native.Mathlib.Decide.{dec_lt}
use malloc_kit.Base.{ℕ, ◌+◌, ◌-◌, ◌*◌, ◌/◌, ◌%◌, ◌^◌, ◌≤◌, ◌<◌, ◌≡◌, max, arith, pow_pos, pow_mono}
use malloc_kit.Address.{align_up}
use malloc_kit.Address.Align.{align_up-eq}
use malloc_kit.Layout.{
  Layout, padding_needed_for, padded_size, pad_to_align_unchecked, extend_unchecked,
}

-- The alignment is a power of two, and the size rounded up to it does not exceed `isize::MAX`.
pub record IsLayout (l : Layout) : Type 0 where
  pub log_align : ℕ
  pub is_pow : l.align ≡ 2 ^ log_align
  pub bound : l.size + l.align ≤ 2 ^ 63

pub log-lt : {l : Layout} (v : IsLayout l) → v.log_align < 64
log-lt v = elim (dec_lt v.log_align 64) [
  | yes p ↦ p
  | no p ↦ absurd (omega (arith, v.is_pow, v.bound, pow_mono 64 v.log_align (omega arith)))
]

-- A number rounded up to a multiple of `2^k`.
abbrev pub round_up : ℕ → ℕ → ℕ
round_up k n = (n + (2 ^ k - 1)) / 2 ^ k * 2 ^ k

pub round_up_lem :
    (k n : ℕ) → (round_up k n % 2 ^ k ≡ 0) × (n ≤ round_up k n) × (round_up k n < n + 2 ^ k)
round_up_lem k n =
    let d : ℕ = 2 ^ k in
    let s : ℕ = n + (d - 1) in
    let split = div-add-mod s d in
    let rest = mod-lt s {m = d} (pow_pos k) in (mul-mod_left (s / d) d, omega arith, omega arith)

padding-eq :
    (l : Layout) (k : ℕ)
    → k < 64
    → l.size + 2 ^ k ≤ 2 ^ 63 + 2 ^ 62
    → padding_needed_for l (2 ^ k) + l.size ≡ round_up k l.size
unfolding padding_needed_for align_up
padding-eq l k h fits =
    let e = align_up-eq k l.size h (omega (arith, pow_pos k)) in
    let r = round_up_lem k l.size in omega (arith, e, r, pow_pos k)

-- `padded_size` is the least multiple of the alignment that holds the size.
pub padded_size-eq : {l : Layout} (v : IsLayout l) → padded_size l ≡ round_up v.log_align l.size
unfolding padded_size
padded_size-eq {l} v =
    let e = padding-eq l v.log_align (log-lt v) (omega (arith, v.is_pow, v.bound)) in
    let r = round_up_lem v.log_align l.size in rw v.is_pow (omega (arith, e, r, v.is_pow, v.bound))

-- `padded_size` and `pad_to_align_unchecked` agree; the result is a multiple of the alignment, holds
-- the size, wastes less than one alignment and stays within `isize::MAX`.
pub pad_to_align_lem :
    {l : Layout} (v : IsLayout l)
    → let p = pad_to_align_unchecked l in
      (p.size ≡ padded_size l)
      × (p.align ≡ l.align)
      × (p.size % l.align ≡ 0)
      × (l.size ≤ p.size)
      × (p.size < l.size + l.align)
      × (p.size < 2 ^ 63)
unfolding pad_to_align_unchecked padded_size
pad_to_align_lem {l} v =
    let e = padding-eq l v.log_align (log-lt v) (omega (arith, v.is_pow, v.bound)) in
    let r = round_up_lem v.log_align l.size in rw v.is_pow (ground (arith, e, r, v.is_pow, v.bound))

-- `extend_unchecked` puts the second layout at an aligned offset behind the first, with less than
-- one alignment between them; the whole ends with the second and has the larger alignment.
pub extend_unchecked_lem :
    (l next : Layout) (v : IsLayout next)
    → l.size ≤ 2 ^ 62
    → next.size + next.align ≤ 2 ^ 62
    → let (whole, offset) = extend_unchecked l next in
      (offset % next.align ≡ 0)
      × (l.size ≤ offset)
      × (offset < l.size + next.align)
      × (whole.size ≡ offset + next.size)
      × (whole.align ≡ max l.align next.align)
unfolding extend_unchecked
extend_unchecked_lem l next v small fits =
    let k : ℕ = v.log_align in
    let e = padding-eq l k (log-lt v) (omega (arith, v.is_pow)) in
    let r = round_up_lem k l.size in rw v.is_pow (ground (arith, e, r, v.is_pow))
