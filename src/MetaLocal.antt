-- ===== src/MetaLocal.antt =====
-- mallockit/src/space/meta/meta_allocator.rs: `MetaLocal`, the allocator of the kit's own data: cells of powers of two up to a page
-- of 4 KB, which are split but not merged. META_SPACE is a parameter.
pub mod Laws
pub mod Split
pub mod Tests
use malloc_kit.Base.{
  ℕ, zero, suc, ◌+◌, ◌-◌, ◌^◌, max, bit_and, Bool, List, Option, none, some, if◌then◌else◌, ltb,
  get_or, set, replicate, wrapping_add, bit_not, ◌<<<◌, ◌>>>◌, next_power_of_two, trailing_zeros,
}
use malloc_kit.Address.{Address, zero_address, is_zero, align_up, align_down}
use malloc_kit.Layout.{Layout, from_size_align, padded_size, pad_to_align_unchecked}
use malloc_kit.Chain.{Memory, store}

abbrev pub max_non_large_alloc_size : ℕ
max_non_large_alloc_size = 4096

abbrev pub num_size_class : ℕ
num_size_class = 13

unfoldable pub request_large : ℕ → Bool
request_large padded_size = ltb max_non_large_alloc_size padded_size

-- Sizes and alignments are rounded up to 16.
unfoldable pub update_layout : Layout → Layout
update_layout l =
    from_size_align (bit_and (wrapping_add l.size 0b1111) (bit_not 0b1111)) (max 16 l.align)

unfoldable pub size_class : ℕ → ℕ
size_class size = trailing_zeros (next_power_of_two size)

-- The pages of 4 KB of a large layout.
unfoldable pub large_pages : Layout → ℕ
large_pages layout = wrapping_add (pad_to_align_unchecked layout).size 4095 >>> 12

module _ {S : Type 0} (map : S → ℕ → Option Address × S) (unmap : S → Address → ℕ → S) where
  -- The free lists of the thread, the words of memory, and the space.
  pub record MetaLocal : Type 0 where
    pub freelist : List Address
    pub memory : Memory
    pub space : S

  unfoldable pub new : Memory → S → MetaLocal
  new m s = record { freelist = replicate num_size_class zero_address; memory = m; space = s }

  unfoldable pub with_space : MetaLocal → S → MetaLocal
  with_space l s = record { freelist = l.freelist; memory = l.memory; space = s }

  unfoldable pub pop_cell : MetaLocal → ℕ → Option Address × MetaLocal
  pop_cell l size_class =
      let cell = get_or l.freelist size_class 0 in
      if is_zero cell then (none, l) else (
        some cell,
        record {
          freelist = set l.freelist size_class (l.memory cell);
          memory = l.memory;
          space = l.space;
        },
      )

  unfoldable pub push_cell : MetaLocal → Address → ℕ → MetaLocal
  push_cell l cell size_class = record {
    freelist = set l.freelist size_class cell;
    memory = store l.memory cell (get_or l.freelist size_class 0);
    space = l.space;
  }

  -- The splitting loop, from class `request + rounds` down to `request`: the second half goes to its list.
  unfoldable pub split : MetaLocal → Address → ℕ → ℕ → MetaLocal
  split l parent request zero = l
  split l parent request (suc rounds) =
      let cell2 = wrapping_add parent ((1 <<< suc (request + rounds)) >>> 1) in
      split (push_cell l cell2 (request + rounds)) parent request rounds

  -- The search for a cell from class `request + offset` on, for `left` more classes.
  unfoldable pub search : MetaLocal → (request offset left : ℕ) → Option Address × MetaLocal
  search l request offset zero = (none, l)
  search l request offset (suc left) =
      let (found, l') = pop_cell l (request + offset) in
      let further = search l' request (suc offset) left in
      elim found [ none ↦ further | some cell ↦ (some cell, split l' cell request offset) ]

  -- With fuel for the pages that are mapped; the second round is the one with `retry`.
  unfoldable pub allocate_cell_slow : ℕ → MetaLocal → ℕ → Option Address × MetaLocal
  allocate_cell_slow zero l request = (none, l)
  allocate_cell_slow (suc fuel) l request =
      let (found, l') = search l request 0 (num_size_class - request) in
      let (page, s) = map l'.space 1 in
      elim found [
        | some cell ↦ (some cell, l')
        | none ↦ elim page [
          | none ↦ (none, with_space l' s)
          | some start ↦
              allocate_cell_slow fuel (push_cell (with_space l' s) start (size_class 4096)) request
        ]
      ]

  unfoldable pub allocate_cell : ℕ → MetaLocal → ℕ → Option Address × MetaLocal
  allocate_cell fuel l size_class =
      let (found, l') = pop_cell l size_class in
      elim found [ some cell ↦ (some cell, l') | none ↦ allocate_cell_slow fuel l' size_class ]

  unfoldable pub allocate_large : MetaLocal → Layout → Option Address × MetaLocal
  allocate_large l layout =
      let (found, s) = map l.space (large_pages layout) in
      elim found [
        | none ↦ (none, with_space l s)
        | some start ↦ (some (align_up start (pad_to_align_unchecked layout).align), with_space l s)
      ]

  unfoldable pub release_large : MetaLocal → Address → Layout → MetaLocal
  release_large l ptr layout = with_space l (unmap l.space ptr (large_pages layout))

  unfoldable pub allocate : ℕ → MetaLocal → Layout → Option Address × MetaLocal
  allocate fuel l layout =
      let updated = update_layout layout in
      if request_large (padded_size updated)
      then allocate_large l updated
      else let (found, l') = allocate_cell fuel l (size_class (padded_size updated)) in
        elim found [ none ↦ (none, l') | some cell ↦ (some (align_up cell updated.align), l') ]

  unfoldable pub deallocate : MetaLocal → Address → Layout → MetaLocal
  deallocate l ptr layout =
      let updated = update_layout layout in
      let class = size_class (padded_size updated) in
      if request_large (padded_size updated)
      then release_large l ptr updated
      else push_cell l (align_down ptr (1 <<< class)) class
