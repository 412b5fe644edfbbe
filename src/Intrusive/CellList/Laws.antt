-- ===== src/Intrusive/CellList/Laws.antt =====
-- The doubly linked lists implement the lists of free cells that the buddy allocator asks for.
use malloc_kit.Base.{ℕ, ◌≤◌, ◌<◌, ◌≡◌, ◌≢◌, arith, none, [], length-replicate, get_or-replicate}
use malloc_kit.Address.{Address}
use malloc_kit.Buddy.Cover.{IsFreeList}
use malloc_kit.Intrusive.CellList.{Cell, State, is_free, intrusive, new}
use malloc_kit.Intrusive.CellList.Invariant.{free_at, Valid, is_free_lem}
use malloc_kit.Intrusive.CellList.Take.{pop_lem, remove_lem}
use malloc_kit.Intrusive.CellList.Push.{push_lem, split_lem}

module _ (self : Address) (n t : ℕ) (classes : t < n) (few : t < 64) where
  unfoldable pub laws : IsFreeList (intrusive self n t)
  laws = record {
    Valid = Valid self n t classes few;
    free_at = free_at self n t classes few;
    few_classes = few;
    push_law = push_lem self n t classes few;
    remove_law = remove_lem self n t classes few;
    pop_law = pop_lem self n t classes few;
    split_law = split_lem self n t classes few;
    is_free_law =
        λ (s : State) (u k : ℕ) v low found. is_free_lem self n t classes few s u k low found;
  }

  new-Valid :
      (cell : ℕ → Cell)
      → ((u : ℕ) → (cell u).owner ≢ self)
      → Valid self n t classes few (new self n cell)
        × ((c u : ℕ) → free_at self n t classes few (new self n cell) c u ≡ 0)
  unfolding new free_at is_free
  new-Valid cell fresh = (
    record {
      lists = λ (c : ℕ). [];
      whole = length-replicate n none;
      linked = λ (c : ℕ) (h : c ≤ t). get_or-replicate n c none;
      distinct = λ (c : ℕ) (h : c ≤ t). tt;
      marked = λ (c u : ℕ) (h : c ≤ t). ground (arith, fresh u);
    },
    λ (c u : ℕ). ground (arith, fresh u),
  )

  -- The lists of `IntrusiveFreeList` obey the laws that the buddy allocator asks for: there are a validity, and a
  -- count of the entries of a unit in a class, that each operation keeps and changes as it should. New lists, over
  -- memory in which no cell has the list as its owner, are valid and empty. This asks that the largest class that is
  -- used is below 64 and has a list.
  pub intrusive-IsFreeList :
      (cell : ℕ → Cell)
      → ((u : ℕ) → (cell u).owner ≢ self)
      → (law : IsFreeList (intrusive self n t)) × law.Valid (new self n cell)
        × ((c u : ℕ) → law.free_at (new self n cell) c u ≡ 0)
  unfolding laws
  intrusive-IsFreeList cell fresh = (laws, (new-Valid cell fresh).0, (new-Valid cell fresh).1)
