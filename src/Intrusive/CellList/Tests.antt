-- ===== src/Intrusive/CellList/Tests.antt =====
-- Lists of five classes whose address is 4096, over memory that is zero.
use malloc_kit.Base.{ℕ, ◌≡◌, refl, arith, Option, none, some, [], ◌∷◌}
use malloc_kit.Buddy.{
  push, pop, remove, sibling, parent, allocate_aligned_units, allocate_aligned_units_slow,
  search_classes, split_down, release_aligned_units, release_loop,
}
use malloc_kit.Buddy.Cover.{IsFreeList}
use malloc_kit.Intrusive.CellList.{
  Cell, State, new, intrusive, push_cell, pop_cell, remove_cell, set_as_free, set_as_used,
  split_cell, is_free, write_prev, write_next,
}
use malloc_kit.Intrusive.CellList.Laws.{intrusive-IsFreeList}

abbrev unused : ℕ → Cell
unused u = record { free = 0; class = 0; owner = 0; prev = none; next = none }

intrusive-IsFreeList_example :
    (law : IsFreeList (intrusive 4096 6 5)) × law.Valid (new 4096 6 unused)
    × ((c u : ℕ) → law.free_at (new 4096 6 unused) c u ≡ 0)
intrusive-IsFreeList_example =
    intrusive-IsFreeList 4096 6 5 (omega arith) (omega arith) unused
      (λ (u : ℕ) e. absurd (omega (arith, e)))

-- A cell of 32 units is released; an allocation of 4 units splits it; releasing them merges it again.
abbrev filled : State
filled = release_aligned_units (intrusive 4096 6 5) (new 4096 6 unused) 0 5

abbrev taken : Option ℕ × State
taken = allocate_aligned_units (intrusive 4096 6 5) filled 2

taken_first :
    (taken.0 ≡ some 0) × (taken.1.table ≡ none ∷ none ∷ some 4 ∷ some 8 ∷ some 16 ∷ none ∷ [])
unfolding new release_aligned_units release_loop allocate_aligned_units allocate_aligned_units_slow
    search_classes split_down push pop remove sibling parent push_cell pop_cell remove_cell
    set_as_free set_as_used split_cell is_free write_prev write_next
taken_first = (refl, refl)

merged :
    (release_aligned_units (intrusive 4096 6 5) taken.1 0 2).table
    ≡ none ∷ none ∷ none ∷ none ∷ none ∷ some 0 ∷ []
unfolding new release_aligned_units release_loop allocate_aligned_units allocate_aligned_units_slow
    search_classes split_down push pop remove sibling parent push_cell pop_cell remove_cell
    set_as_free set_as_used split_cell is_free write_prev write_next
merged = refl
