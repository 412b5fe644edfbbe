-- ===== src/FreeListSpace/Tests.antt =====
-- A block from the free list of the allocator, whose first page is taken from the space.
use malloc_kit.Base.{ℕ, ◌+◌, ◌-◌, ◌^◌, ◌≡◌, none, arith, refl}
use malloc_kit.Address.{Address}
use malloc_kit.Layout.{from_size_align}
use malloc_kit.FreeListSpace.{
  CellSource, alloc, alloc_cell, cell_set, cell_start, cell_size, cell_align, cell_data_size,
}
use malloc_kit.FreeListSpace.Laws.{
  IsCellSource, FoundCell, alloc_cell_lem, AllocatedBlock, alloc_lem,
}
use malloc_kit.Buddy.{FreeList}
use malloc_kit.Buddy.Cover.{IsFreeList}
use malloc_kit.Intrusive.CellList.{Cell, intrusive, new}
use malloc_kit.Intrusive.CellList.Laws.{intrusive-IsFreeList}
use malloc_kit.FreeListSpace.Source.{Source, fresh_source, Reached}
use malloc_kit.FreeListSpace.Source.Pages.{empty-Reached, fresh_source-IsCellSource}
use malloc_kit.FreeListSpace.Cell.{cell_lem}

abbrev pub unused : ℕ → Cell
unused u = record { free = 0; class = 0; owner = 0; prev = none; next = none }

-- The lists of the space, at address 4096, for cells of up to 2 MB.
abbrev pub lists : FreeList
lists = intrusive 4096 39 18

pub lists_new :
    (law : IsFreeList lists) × law.Valid (new 4096 39 unused)
    × ((c u : ℕ) → law.free_at (new 4096 39 unused) c u ≡ 0)
lists_new =
    intrusive-IsFreeList 4096 39 18 (omega arith) (omega arith) unused
      (λ (u : ℕ) e. absurd (omega (arith, e)))

-- The space starts at 2^42 and has 2^20 pages.
abbrev pub base : Address
base = 4398046511104

abbrev pub limit : ℕ
limit = 1048576

abbrev source : CellSource
source = fresh_source lists base limit

abbrev source-IsCellSource : IsCellSource source
source-IsCellSource =
    fresh_source-IsCellSource lists lists_new.0 base limit refl (omega arith) refl (omega arith)

abbrev pub empty_source : Source lists base limit
empty_source = record { list = new 4096 39 unused; next = 0; contents = λ (a : Address). 0 }

pub empty_source-Reached : Reached lists lists_new.0 base limit empty_source
empty_source-Reached =
    empty-Reached lists lists_new.0 base limit refl (omega arith) refl (omega arith) empty_source
      lists_new.1 lists_new.2 (omega arith)

list_alloc_cell_example :
    FoundCell source source-IsCellSource empty_source 104 (alloc_cell source 2 empty_source 104)
unfolding fresh_source-IsCellSource
list_alloc_cell_example =
    alloc_cell_lem source source-IsCellSource 0 empty_source 104 empty_source-Reached refl
      (omega arith)

list_alloc_example :
    AllocatedBlock source source-IsCellSource 2 empty_source
      (from_size_align 100 64)
      (alloc source 2 empty_source (from_size_align 100 64))
unfolding fresh_source-IsCellSource
list_alloc_example =
    alloc_lem source source-IsCellSource 0 empty_source (from_size_align 100 64)
      (record { log_align = 6; is_pow = refl; bound = omega arith }) empty_source-Reached
      (omega arith) (omega arith)

cell_example :
    let w = cell_set 0 2097216 2097160 1048568 (2 ^ 6) in
    (cell_start w 2097216 ≡ 2097160)
    × (cell_size w ≡ 1048568)
    × (cell_align w ≡ 2 ^ 6)
    × (cell_data_size w ≡ 2097160 + 1048568 - (2097216 + 8))
cell_example =
    cell_lem 0 2097216 2097160 1048568 6 (omega arith) (omega arith) (omega arith) (omega arith)
      (omega arith) (omega arith) (omega arith)
