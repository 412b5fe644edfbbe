-- ===== src/FreeListSpace.antt =====
-- mallockit/src/space/freelist_space.rs: `FreeListSpace`, the header word of a cell, and `FreeListAllocator`.
pub mod Cell
pub mod Place
pub mod Laws
pub mod Source
pub mod Tests
use malloc_kit.Base.{
  ℕ, zero, suc, ◌+◌, ◌-◌, ◌%◌, ◌^◌, ◌≤◌, Bool, Option, none, some, if◌then◌else◌, leb, wrapping_add,
  wrapping_sub, ◌<<<◌, trailing_zeros,
}
use malloc_kit.Address.{Address, align_up, is_zero}
use malloc_kit.BitField.{BitField, get, set}
use malloc_kit.Chain.{Memory, store}
use malloc_kit.Layout.{Layout, from_size_align, extend_unchecked, padded_size}
use malloc_kit.Intrusive.{AddressRange}

-- `Cell::START_OFFSET`, `SIZE` and `LOG_ALIGN`
abbrev pub start_offset_field : BitField
start_offset_field = record { bits = 21; shift = 0 }

abbrev pub size_field : BitField
size_field = record { bits = 21; shift = 21 }

abbrev pub log_align_field : BitField
log_align_field = record { bits = 8; shift = 42 }

-- `Layout::new::<Cell>()`
abbrev pub cell_layout : Layout
cell_layout = from_size_align 8 8

-- `Cell::from`: the word before the data
unfoldable pub cell_from : Address → Address
cell_from ptr = wrapping_sub ptr 8

-- `Cell::set`, from the old word to the new one, for the cell at `this`
unfoldable pub cell_set : ℕ → (this start : Address) → (size align : ℕ) → ℕ
cell_set word this start size align =
    let start_offset = wrapping_sub (wrapping_add this 8) start in
    set (set (set word start_offset_field start_offset) size_field size) log_align_field
      (trailing_zeros align)

unfoldable pub cell_start : ℕ → Address → Address
cell_start word this = wrapping_sub (wrapping_add this 8) (get word start_offset_field)

unfoldable pub cell_size : ℕ → ℕ
cell_size word = get word size_field

unfoldable pub cell_data_size : ℕ → ℕ
unfolding cell_size
cell_data_size word = wrapping_sub (cell_size word) (get word start_offset_field)

unfoldable pub cell_align : ℕ → ℕ
cell_align word = 1 <<< get word log_align_field

unfoldable pub get_layout : Memory → Address → Layout
unfolding cell_data_size cell_align
get_layout m ptr =
    let word = m (cell_from ptr) in from_size_align (cell_data_size word) (cell_align word)

unfoldable pub can_allocate : Layout → Bool
can_allocate layout =
    let (extended_layout, offset) = extend_unchecked cell_layout layout in
    leb (wrapping_add (padded_size extended_layout) 8) 4096

-- The list of coalesced pages that the allocators share, with its links in the pages.
abbrev pub Pages : Type 0
Pages = Option Address × Memory

unfoldable pub add_coalesced_page : Pages → Address → Pages
add_coalesced_page (pages, m) page =
    let head : Address = elim pages [ none ↦ 0 | some p ↦ p ] in (some page, store m page head)

unfoldable pub get_coalesced_page : Pages → Option Address × Pages
get_coalesced_page (none, m) = (none, (none, m))
get_coalesced_page (some page, m) =
    let next = m page in (some page, (if is_zero next then none else some next, m))

-- The free list of the allocator, and what else it takes pages from; `refill` is `get_coalesced_page`, or `acquire_block`
-- where there is no such page.
pub record CellSource : Type 1 where
  pub State : Type 0
  pub allocate_cell : State → ℕ → Option AddressRange × State
  pub release_cell : State → Address → ℕ → State
  pub add_units : State → Address → ℕ → State
  pub refill : State → Option Address × State
  pub memory : State → Memory
  pub write : State → Address → ℕ → State

-- Where the data of a block starts, in the range that `alloc_cell` found.
unfoldable pub place : Layout → AddressRange → Address
place layout range =
    let (extended_layout, offset) = extend_unchecked cell_layout layout in
    wrapping_add (align_up range.start extended_layout.align) offset

module _ (source : CellSource) where
  open source use {State, allocate_cell, release_cell, add_units, refill, memory, write}

  -- `alloc_cell` and `alloc_cell_slow`, which call each other, with fuel for the pages that are added.
  unfoldable pub alloc_cell : ℕ → State → ℕ → Option AddressRange × State
  alloc_cell zero s bytes = (none, s)
  alloc_cell (suc fuel) s bytes =
      let (found, s') = allocate_cell s bytes in
      let (page, s'') = refill s' in
      elim found [
        | some range ↦ (some range, s')
        | none ↦ elim page [
          | none ↦ (none, s'')
          | some start ↦ alloc_cell fuel (add_units s'' start (1 <<< 21)) bytes
        ]
      ]

  unfoldable pub alloc : ℕ → State → Layout → Option Address × State
  alloc fuel s layout =
      let (extended_layout, offset) = extend_unchecked cell_layout layout in
      let (found, s') = alloc_cell fuel s (padded_size extended_layout) in
      elim found [
        | none ↦ (none, s')
        | some range ↦
            let data_start = place layout range in
            let this = cell_from data_start in
            let word =
              cell_set (memory s' this) this range.start (wrapping_sub range.end range.start)
                layout.align in
            (some data_start, write s' this word)
      ]

  -- `dealloc` up to the loop that hands whole pages back to the space.
  unfoldable pub dealloc_to_cell : State → Address → State
  dealloc_to_cell s ptr =
      let this = cell_from ptr in
      let word = memory s this in release_cell s (cell_start word this) (cell_size word)
