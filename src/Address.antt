-- ===== src/Address.antt =====
-- mallockit/src/util/mem/address.rs: `Address`, a `usize` with alignment and pointer arithmetic.
pub mod Align
pub mod Order
use malloc_kit.Base.{
  ℕ, ◌+◌, ◌-◌, ◌^◌, bit_and, Bool, Option, none, some, if◌then◌else◌, ltb, ◌==◌, wrapping_add,
  wrapping_sub, bit_not,
}

-- `struct Address(usize)`.
abbrev pub Address : Type 0
Address = ℕ

abbrev pub zero_address : Address
zero_address = 0

abbrev pub is_zero : Address → Bool
is_zero a = a == 0

unfoldable pub align_up : Address → ℕ → Address
align_up a align = let mask = wrapping_sub align 1 in bit_and (wrapping_add a mask) (bit_not mask)

unfoldable pub align_down : Address → ℕ → Address
align_down a align = let mask = wrapping_sub align 1 in bit_and a (bit_not mask)

unfoldable pub is_aligned_to : Address → ℕ → Bool
is_aligned_to a align = bit_and a (wrapping_sub align 1) == 0

-- `std::cmp::Ordering` as `Address::cmp` returns it.
pub data Ordering : Type 0 where
  less equal greater : Ordering

unfoldable pub cmp : Address → Address → Ordering
cmp x y = if x == y then equal else if ltb x y then less else greater

-- `PartialOrd::lt`, `le`, `gt` and `ge` match on the result of `cmp`.
unfoldable pub lt : Address → Address → Bool
unfolding cmp
lt x y = elim (cmp x y) [ less ↦ Bool.true | _ ↦ Bool.false ]

unfoldable pub le : Address → Address → Bool
unfolding cmp
le x y = elim (cmp x y) [ greater ↦ Bool.false | _ ↦ Bool.true ]

unfoldable pub gt : Address → Address → Bool
unfolding cmp
gt x y = elim (cmp x y) [ greater ↦ Bool.true | _ ↦ Bool.false ]

unfoldable pub ge : Address → Address → Bool
unfolding cmp
ge x y = elim (cmp x y) [ less ↦ Bool.false | _ ↦ Bool.true ]

unfoldable pub max_address : Address → Address → Address
unfolding cmp
max_address x y = elim (cmp x y) [ greater ↦ x | _ ↦ y ]

unfoldable pub min_address : Address → Address → Address
unfolding cmp
min_address x y = elim (cmp x y) [ greater ↦ y | _ ↦ x ]

unfoldable pub clamp : Address → Address → Address → Address
unfolding lt gt
clamp x lo hi = if lt x lo then lo else if gt x hi then hi else x

-- `Step for Address`, by which ranges of addresses are iterated.
unfoldable pub steps_between : Address → Address → Option ℕ
steps_between start end = if ltb end start then none else some (wrapping_sub end start)

unfoldable pub forward_checked : Address → ℕ → Option Address
forward_checked start count = some (wrapping_add start count)

unfoldable pub backward_checked : Address → ℕ → Option Address
backward_checked start count = some (wrapping_sub start count)
