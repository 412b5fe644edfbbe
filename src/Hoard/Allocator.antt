-- ===== src/Hoard/Allocator.antt =====
-- hoard/src/hoard_space.rs: `HoardAllocator`, the allocator of a thread, which keeps small free cells in a buffer and asks its
-- pool for the others. The pool, with the global space behind it, is a parameter.
pub mod Laws
pub mod Tests
use malloc_kit.Base.{
  ℕ, ◌+◌, ◌^◌, Bool, ◌&&◌, if◌then◌else◌, leb, ltb, Option, none, some, length, next_power_of_two,
  wrapping_add,
}
use malloc_kit.Address.{Address}
use malloc_kit.Layout.{Layout, padded_size, pad_to_align_unchecked}
use malloc_kit.SizeClass
use malloc_kit.SizeClass.{SizeClass}
use malloc_kit.Region
use malloc_kit.Chain.{Memory}
use malloc_kit.Tlab
use malloc_kit.Tlab.{DiscreteTlab}
use malloc_kit.Hoard.SuperBlock

-- `Pool::alloc_cell` and `Pool::free_cell`, and the class of the block that contains a cell.
pub record Pool : Type 1 where
  pub State : Type 0
  pub alloc_cell : State → Memory → SizeClass → Option Address × (State × Memory)
  pub free_cell : State → Memory → Address → State × Memory
  pub class_of : State → Address → SizeClass

abbrev pub class_bytes : SizeClass → ℕ
class_bytes c = SizeClass.bytes SuperBlock.log_coverage c

abbrev pub max_allocation_size : ℕ
max_allocation_size = 2 ^ 16

abbrev pub local_heap_threshold : ℕ
local_heap_threshold = 2 ^ 24

abbrev pub largest_small_object : ℕ
largest_small_object = 1024

-- `HoardSpace::can_allocate`
unfoldable pub can_allocate : Layout → Bool
can_allocate layout =
    let size = next_power_of_two (pad_to_align_unchecked layout).size in
    leb size max_allocation_size

module _ (p : Pool) where
  open p use {State, alloc_cell, free_cell, class_of}

  pub record HoardAllocator : Type 0 where
    pub tlab : DiscreteTlab
    pub local : State

  -- The buffer has bins up to the class of the largest small object.
  unfoldable pub new : State → HoardAllocator
  new local = record {
    tlab = Tlab.new (SizeClass.from_bytes SuperBlock.log_coverage largest_small_object + 1);
    local = local;
  }

  abbrev Result : Type 0
  Result = Option Address × (HoardAllocator × Memory)

  unfoldable pub alloc_local : HoardAllocator → Memory → SizeClass → Result
  alloc_local s m size_class =
      let (cell, (local, m')) = alloc_cell s.local m size_class in
      (cell, (record s { local = local }, m'))

  -- `none` is a panic, for a class that has no bin.
  unfoldable pub alloc : HoardAllocator → Memory → Layout → Option Result
  alloc s m layout =
      let size_class = SizeClass.from_layout SuperBlock.log_coverage layout in
      let (found, (tlab, m')) = Tlab.pop class_bytes (s.tlab, m) size_class in
      let cached : Result = elim found [
        | none ↦ alloc_local s m size_class
        | some cell ↦ (some cell, (record s { tlab = tlab }, m'))
      ] in
      if leb layout.size largest_small_object
      then if ltb size_class (length s.tlab.bins) then some cached else none
      else some (alloc_local s m size_class)

  unfoldable pub dealloc : HoardAllocator → Memory → Address → HoardAllocator × Memory
  dealloc s m cell =
      let size_class = class_of s.local cell in
      let size = class_bytes size_class in
      let (tlab, pushed) = Tlab.push class_bytes (s.tlab, m) size_class cell in
      let (local, m') = free_cell s.local m cell in
      if leb size largest_small_object
        && leb (wrapping_add size (Tlab.free_bytes s.tlab)) local_heap_threshold
      then (record s { tlab = tlab }, pushed)
      else (record s { local = local }, m')
