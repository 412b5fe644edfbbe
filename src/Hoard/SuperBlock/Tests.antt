-- ===== src/Hoard/SuperBlock/Tests.antt =====
-- A block of 2^18 bytes with three cells of 64 KB, all in use.
use malloc_kit.Base.{◌+◌, ◌-◌, ◌^◌, ◌≡◌, ◌⊎◌, some, none, List, [], ◌∷◌, arith, refl}
use malloc_kit.Address.{Address}
use malloc_kit.Chain.{Memory}
use malloc_kit.Hoard.SuperBlock.{BlockMeta, init, alloc_cell, free_cell}
use malloc_kit.Hoard.SuperBlock.Invariant.{IsBlock, first_cell, size_of, init-IsBlock}
use malloc_kit.Hoard.SuperBlock.Alloc.{Allocated, alloc_cell-IsBlock}
use malloc_kit.Hoard.SuperBlock.Free.{erase, free_cell-IsBlock, alloc_cell-free_cell}

abbrev zeros : Memory
zeros = λ (a : Address). 0

abbrev block : Address
block = 262144

abbrev blank : BlockMeta
blank = record {
  bump_cursor = 0;
  used_bytes = 0;
  prev = none;
  next = none;
  size_class = 0;
  group = 0;
  head_cell = 0;
  owner = 0;
}

alloc_cell_example :
    Allocated block zeros (init blank 3) [] (alloc_cell block zeros (init blank 3))
    ⊎ (alloc_cell block zeros (init blank 3) ≡ (none, init blank 3))
      × ((init blank 3).used_bytes ≡ 2 ^ 18 - first_cell (init blank 3).size_class)
alloc_cell_example =
    alloc_cell-IsBlock (init-IsBlock block zeros blank 3 (omega arith) (omega arith))

abbrev full : BlockMeta
full = record {
  bump_cursor = 262144;
  used_bytes = 196608;
  prev = none;
  next = none;
  size_class = 12;
  group = 0;
  head_cell = 0;
  owner = 0;
}

abbrev cells : List Address
cells = 327680 ∷ 393216 ∷ 458752 ∷ []

full-IsBlock : IsBlock block zeros full cells []
full-IsBlock = record {
  class = omega arith;
  placed = omega arith;
  cursor_low = omega arith;
  cursor_high = omega arith;
  cursor_aligned = refl;
  used = refl;
  cells = refl;
  chain = refl;
  live_cells = (
    record { low = omega arith; high = omega arith; aligned = refl },
    (
      record { low = omega arith; high = omega arith; aligned = refl },
      (record { low = omega arith; high = omega arith; aligned = refl }, tt),
    ),
  );
  free_cells = tt;
  live_distinct = (refl, (refl, (refl, tt)));
  free_distinct = tt;
  apart = λ a h. refl;
}

free_cell_example :
    let (m', b') = free_cell zeros full 393216 in
    IsBlock block m' b' (erase 393216 cells) (393216 ∷ [])
    × (b'.used_bytes + size_of full ≡ full.used_bytes)
free_cell_example = free_cell-IsBlock full-IsBlock 393216 refl

alloc_cell-free_cell_example :
    let (m', b') = free_cell zeros full 393216 in alloc_cell block m' b' ≡ (some 393216, full)
alloc_cell-free_cell_example = alloc_cell-free_cell full-IsBlock 393216 refl refl
