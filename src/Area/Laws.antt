-- ===== src/Area/Laws.antt =====
-- An allocation lies in the area, is aligned, and its header can be read back.
use native.Mathlib.Nat.{mod_self}
use malloc_kit.Base.{
  ℕ, ◌+◌, ◌-◌, ◌*◌, ◌%◌, ◌^◌, ◌≤◌, ◌<◌, ◌≡◌, none, some, arith, multiple_once, leb, if◌then◌else◌,
}
use malloc_kit.Address.{Address, align_up}
use malloc_kit.Address.Align.{align_up_least, aligned_add}
use malloc_kit.Layout.{Layout, from_size_align, extend_unchecked}
use malloc_kit.Layout.Laws.{IsLayout, log-lt, extend_unchecked_lem}
use malloc_kit.Area.{Area, Headers, header, put, alloc_with_layout, load_layout, load_range}

-- The area lies below 2^62, far from the end of the address space.
pub record IsArea (area : Area) : Type 0 where
  pub low : area.top ≤ 2 ^ 62
  pub limit_low : area.limit ≤ 2 ^ 62

-- An object of at least the alignment of a header word whose size and alignment fit a `u32`.
pub record IsRequest (l : Layout) : Type 0 where
  pub valid : IsLayout l
  pub align_min : 8 ≤ l.align
  pub align_max : l.align < 2 ^ 32
  pub size_max : l.size < 2 ^ 32

-- The header goes to the word before the first multiple of the alignment behind it.
extended-eq :
    (l : Layout)
    → IsRequest l
    → extend_unchecked header l ≡ (from_size_align (l.align + l.size) l.align, l.align)
extended-eq l v =
    let e =
      extend_unchecked_lem header l v.valid (omega arith)
        (omega (arith, v.size_max, v.align_max)) in
    let place =
      multiple_once l.align (extend_unchecked header l).1 e.0 (omega (arith, e))
        (omega (arith, e, v.align_min)) in
    ground (arith, e, place, v.align_min)

module _ (area : Area) (l : Layout) (in_area : IsArea area) (v : IsRequest l) where
  pub start : Address
  start = align_up area.top l.align

  pub start_lem : (start % l.align ≡ 0) × (area.top ≤ start) × (start < area.top + l.align)
  unfolding start
  start_lem =
      let k : ℕ = v.valid.log_align in
      rw v.valid.is_pow (
        align_up_least k area.top (log-lt v.valid)
          (omega (arith, in_area.low, v.align_max, v.valid.is_pow)))

  -- What `alloc_with_layout` does, with the arithmetic carried out.
  pub alloc_with_layout-eq :
      (m : Headers)
      → alloc_with_layout area m l ≡ (
          if leb (start + l.align + l.size) area.limit
          then (
            some (start + l.align),
            record area { top = start + l.align + l.size },
            put m (start + l.align - 8) (l.size, l.align),
          )
          else (none, area, m))
  unfolding alloc_with_layout start
  alloc_with_layout-eq m =
      let s = start_lem in
      rw (extended-eq l v) (ground (arith, s, in_area.low, v.align_min, v.align_max, v.size_max))

  -- The object of a request that is granted starts at a multiple of its alignment, behind a
  -- header word, and ends at the new top, which does not pass the limit.
  pub alloc_with_layout_lem :
      (m : Headers) {p : Address} {area' : Area} {m' : Headers}
      → alloc_with_layout area m l ≡ (some p, area', m')
      → (p % l.align ≡ 0)
        × (area.top + 8 ≤ p)
        × (area'.top ≡ p + l.size)
        × (area'.top ≤ area.limit)
        × (area'.limit ≡ area.limit)
  alloc_with_layout_lem m h =
      let aligned : (start + l.align) % l.align ≡ 0 =
        aligned_add l.align start l.align start_lem.0 (mod_self l.align) in
      ground (arith, alloc_with_layout-eq m, start_lem, aligned, v.align_min)

  -- A request is refused only if the object does not fit behind its alignment, and then nothing
  -- changes.
  pub alloc_with_layout-none :
      (m : Headers) {area' : Area} {m' : Headers}
      → alloc_with_layout area m l ≡ (none, area', m')
      → (area.limit < area.top + 2 * l.align + l.size) × (area' ≡ area) × (m' ≡ m)
  alloc_with_layout-none m h = ground (arith, alloc_with_layout-eq m, start_lem)

  -- The header of a granted object gives its layout back, and its range ends at the new top.
  load_layout-alloc_with_layout :
      (m : Headers) {p : Address} {area' : Area} {m' : Headers}
      → alloc_with_layout area m l ≡ (some p, area', m')
      → (load_layout m' p ≡ l) × (load_range m' p ≡ (p - l.align, area'.top))
  unfolding load_layout load_range
  load_layout-alloc_with_layout m h =
      ground (arith, alloc_with_layout-eq m, start_lem, extended-eq l v)
