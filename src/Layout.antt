-- ===== src/Layout.antt =====
-- mallockit/src/util/mem/layout_utils.rs: `LayoutUtils` for `std::alloc::Layout`.
pub mod Laws
use malloc_kit.Base.{
  ℕ, ◌+◌, ◌-◌, ◌^◌, max, bit_and, if◌then◌else◌, ltb, wrapping_add, wrapping_sub, bit_not,
}

-- `std::alloc::Layout`; `from_size_align_unchecked` builds one.
pub record Layout : Type 0 where
  pub size : ℕ
  pub align : ℕ

abbrev pub from_size_align : ℕ → ℕ → Layout
from_size_align s a = record { size = s; align = a }

-- `Layout::padding_needed_for` of the standard library.
unfoldable pub padding_needed_for : Layout → ℕ → ℕ
padding_needed_for l align =
    let mask = wrapping_sub align 1 in
    wrapping_sub (bit_and (wrapping_add l.size mask) (bit_not mask)) l.size

unfoldable pub padded_size : Layout → ℕ
unfolding padding_needed_for
padded_size l = wrapping_add (padding_needed_for l l.align) l.size

unfoldable pub pad_to_align_unchecked : Layout → Layout
unfolding padding_needed_for
pad_to_align_unchecked l =
    from_size_align (wrapping_add l.size (padding_needed_for l l.align)) l.align

-- The layout of both in a row, and the offset of the second.
unfoldable pub extend_unchecked : Layout → Layout → Layout × ℕ
unfolding padding_needed_for
extend_unchecked l next =
    let new_align = if ltb next.align l.align then l.align else next.align in
    let pad = padding_needed_for l next.align in
    let offset = wrapping_add l.size pad in
    (from_size_align (wrapping_add offset next.size) new_align, offset)
