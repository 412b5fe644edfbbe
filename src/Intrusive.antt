-- ===== src/Intrusive.antt =====
-- mallockit/src/util/mem/freelist/intrusive_freelist.rs: `IntrusiveFreeList` as `FreeListSpace` configures it, over
-- the buddy allocator of units of 8 bytes from `base` on; a cell starts with a header of one unit.
pub mod Laws
pub mod CellList
use malloc_kit.Base.{
  ℕ, ◌+◌, ◌-◌, ◌%◌, ◌^◌, Option, none, some, wrapping_add, wrapping_sub, ◌<<<◌, ◌>>>◌,
  next_power_of_two,
}
use malloc_kit.Address.{Address}
use malloc_kit.Buddy.{
  FreeList, UnitRange, pop, size_class, allocate_cell_aligned_size, release_cell_aligned_size,
}

abbrev pub log_min_alignment : ℕ
log_min_alignment = 3

abbrev pub header_units : ℕ
header_units = 1

abbrev pub header_bytes : ℕ
header_bytes = 8

-- `Range<Address>`
pub record AddressRange : Type 0 where
  pub start : Address
  pub end : Address

-- `unit_to_value`
unfoldable pub unit_to_cell : (base : Address) → ℕ → Address
unit_to_cell base unit = wrapping_add base (unit <<< log_min_alignment)

-- `value_to_unit`
unfoldable pub cell_to_unit : (base : Address) → Address → ℕ
cell_to_unit base cell = wrapping_sub cell base >>> log_min_alignment

unfoldable pub process_input_units : ℕ → ℕ
process_input_units units = units >>> log_min_alignment

-- The units of a cell for a number of bytes, with its header.
unfoldable pub cell_units : ℕ → ℕ
cell_units bytes = next_power_of_two (wrapping_add (process_input_units bytes) header_units)

module _ (f : FreeList) (base : Address) where
  unfoldable pub pop_raw_cell : f.State → ℕ → Option Address × f.State
  pop_raw_cell s log_size =
      let (found, s') = pop f s (size_class f (process_input_units (1 <<< log_size))) in
      elim found [ none ↦ (none, s') | some unit ↦ (some (unit_to_cell base unit), s') ]

  unfoldable pub range_of : UnitRange → AddressRange
  range_of r = record {
    start = wrapping_add (unit_to_cell base r.start) header_bytes;
    end = unit_to_cell base r.end;
  }

  unfoldable pub allocate_cell : f.State → ℕ → Option AddressRange × f.State
  allocate_cell s bytes =
      let (found, s') = allocate_cell_aligned_size f s (cell_units bytes) in
      elim found [ none ↦ (none, s') | some r ↦ (some (range_of r), s') ]

  unfoldable pub release_cell : f.State → Address → ℕ → f.State
  release_cell s start bytes =
      release_cell_aligned_size f s (cell_to_unit base (wrapping_sub start header_bytes))
        (cell_units bytes)

  unfoldable pub add_units : f.State → Address → ℕ → f.State
  add_units s start bytes =
      release_cell_aligned_size f s (cell_to_unit base start) (process_input_units bytes)
