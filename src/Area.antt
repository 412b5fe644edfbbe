-- ===== src/Area.antt =====
-- mallockit/src/util/mem/alloc/allocation_area.rs: `AllocationArea`, a bump allocator that keeps each
-- object's layout in the word before it.
pub mod Laws
use malloc_kit.Base.{
  ℕ, ◌+◌, ◌-◌, ◌%◌, ◌^◌, Option, none, some, ◌==◌, if◌then◌else◌, leb, wrapping_add, wrapping_sub,
  bit_and, bit_not,
}
use malloc_kit.Address.{Address, align_up}
use malloc_kit.Layout.{Layout, from_size_align, extend_unchecked}

pub record Area : Type 0 where
  pub top : Address
  pub limit : Address

abbrev pub empty : Area
empty = record { top = 0; limit = 0 }

-- `Layout::new::<(u32, u32)>()`
abbrev pub header : Layout
header = from_size_align 8 4

-- The header slots of the memory, by their address.
abbrev pub Headers : Type 0
Headers = Address → ℕ × ℕ

abbrev pub put : Headers → Address → ℕ × ℕ → Headers
put m a v b = if b == a then v else m b

unfoldable pub align_value : ℕ → ℕ → ℕ
align_value value align =
    let mask = wrapping_sub align 1 in bit_and (wrapping_add value mask) (bit_not mask)

abbrev pub get_layout_slot : Address → Address
get_layout_slot ptr = wrapping_sub ptr 8

unfoldable pub alloc : Area → Layout → Option Address × Area
alloc area layout =
    let start = align_up area.top layout.align in
    let end = wrapping_add start layout.size in
    if leb end area.limit then (some start, record area { top = end }) else (none, area)

unfoldable pub alloc_with_layout : Area → Headers → Layout → Option Address × Area × Headers
alloc_with_layout area m layout =
    let (new_layout, offset) = extend_unchecked header layout in
    let start = align_up area.top new_layout.align in
    let end = wrapping_add start new_layout.size in
    let data_start = wrapping_add start offset in
    if leb end area.limit
    then (
      some data_start,
      record area { top = end },
      put m (get_layout_slot data_start) (layout.size % 2 ^ 32, layout.align % 2 ^ 32),
    )
    else (none, area, m)

unfoldable pub load_layout : Headers → Address → Layout
load_layout m ptr = let (size, align) = m (get_layout_slot ptr) in from_size_align size align

-- The start and the end of the allocation that a pointer stands for.
unfoldable pub load_range : Headers → Address → Address × Address
load_range m ptr =
    let (size, align) = m (get_layout_slot ptr) in
    let (new_layout, offset) = extend_unchecked header (from_size_align size align) in
    let start = wrapping_sub ptr offset in (start, wrapping_add start new_layout.size)
