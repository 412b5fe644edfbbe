-- ===== src/Buddy/Tests.antt =====
-- The buddy allocator over a list of free cells.
use native.Mathlib.Nat.{zero-mod}
use malloc_kit.Base.{
  ℕ, subst, sym, log_ceil, ◌+◌, ◌%◌, ◌^◌, ◌≤◌, ◌≡◌, arith, ap, refl, true, false, inl, inr, ◌&&◌,
  if◌then◌else◌, Bool, Option, some, none, List, [], ◌∷◌, ◌==◌, Bool-cases, ==→eq,
}
use malloc_kit.Buddy.{
  FreeList, push, pop, remove, allocate_aligned_units, release_aligned_units, search_classes,
  release_cell_unaligned_size, allocate_cell_unaligned_size, split_down,
  allocate_aligned_units_slow, release_loop, parent, sibling,
}
use malloc_kit.Buddy.Cover.{inside, single, sum_below, cover, Added, Same, IsFreeList, Popped}
use malloc_kit.Buddy.Allocate.{
  IsBuddy, free_units, InUse, Grown, Allocated, allocate_aligned_units_lem,
}
use malloc_kit.Intrusive.CellList.{State}
use malloc_kit.FreeListSpace.Tests.{lists, lists_new, empty_source, empty_source-Reached}
use malloc_kit.Buddy.Ranges.{
  rounded, within, RangeInUse, GrownRange, UnalignedAllocated, release_cell_unaligned_size_lem,
  allocate_cell_unaligned_size_lem,
}
use malloc_kit.Buddy.Release.{release_aligned_units_lem, release-allocate}

-- Free cells as pairs of a class and a unit.
abbrev Cells : Type 0
Cells = List (ℕ × ℕ)

unfoldable is : (k unit c u : ℕ) → Bool
is k unit c u = c == k && u == unit

unfoldable count : Cells → ℕ → ℕ → ℕ
count [] c u = 0
count ((k, unit) ∷ rest) c u = count rest c u + single k unit c u

unfoldable find : Cells → ℕ → ℕ → Bool
find [] unit c = false
find ((k, start) ∷ rest) unit c =
    let later = find rest unit c in if is k start c unit then true else later

unfoldable erase : Cells → ℕ → ℕ → Cells
erase [] unit c = []
erase ((k, start) ∷ rest) unit c =
    let later = erase rest unit c in if is k start c unit then rest else (k, start) ∷ later

unfoldable take_first : Cells → ℕ → Option ℕ × Cells
take_first [] c = (none, [])
take_first ((k, start) ∷ rest) c =
    let (found, left) = take_first rest c in
    if k == c then (some start, rest) else (found, (k, start) ∷ left)

abbrev cells : FreeList
cells = record {
  State = Cells;
  min_size_class = 0;
  num_size_class = 5;
  threshold = 4;
  is_free = find;
  set_as_free = λ (s : Cells) (unit c : ℕ). s;
  set_as_used = λ (s : Cells) (unit c : ℕ). s;
  pop_cell = take_first;
  push_cell = λ (s : Cells) (unit c : ℕ). (c, unit) ∷ s;
  remove_cell = erase;
  split_cell = λ (s : Cells) (unit c : ℕ). s;
}

abbrev AnyCells : Cells → Type 0
AnyCells s = Unit

find_lem : (s : Cells) (unit c : ℕ) → find s unit c ≡ true → 1 ≤ count s c unit
unfolding find count single is
find_lem [] unit c h = ground (arith, h)
find_lem ((k, start) ∷ rest) unit c h = ground (arith, h, find_lem rest unit c)

erase_lem :
    (s : Cells) (unit c : ℕ) → 1 ≤ count s c unit → Added (count (erase s unit c)) (count s) c unit
unfolding erase count single is Added
erase_lem [] unit c h i u = ground (arith, h)
erase_lem ((k, start) ∷ rest) unit c h i u =
    let later : 1 ≤ count rest c unit
        → count rest i u ≡ count (erase rest unit c) i u + single c unit i u =
      λ (h' : 1 ≤ count rest c unit). erase_lem rest unit c h' i u in
    ground (arith, h, later)

take_lem : (s : Cells) (c : ℕ) → Popped AnyCells count s c (take_first s c)
unfolding take_first count single Popped Added Same
take_lem [] c = (tt, λ i u. refl, λ u. refl)
take_lem ((k, start) ∷ rest) c = step (take_first rest c) (take_lem rest c)
  where
    step :
        (r : Option ℕ × Cells)
        → Popped AnyCells count rest c r
        → let (found, left) = r in
          Popped AnyCells count
            ((k, start) ∷ rest)
            c
            (if k == c then (some start, rest) else (found, (k, start) ∷ left))
    step (none, left) (ok, kept, absent) = elim (Bool-cases (k == c)) [
      | inl same ↦
          rw same (tt, λ i u. ap (λ (n : ℕ). count rest i u + single n start i u) (==→eq k c same))
      | inr differ ↦ rw differ (
        tt,
        λ i u. ap (λ (n : ℕ). n + single k start i u) (kept i u),
        λ u. ground (arith, differ, absent u),
      )
    ]
    step (some taken, left) (ok, added) = elim (Bool-cases (k == c)) [
      | inl same ↦
          rw same (tt, λ i u. ap (λ (n : ℕ). count rest i u + single n start i u) (==→eq k c same))
      | inr differ ↦ rw differ (tt, λ i u. omega (arith, added i u))
    ]

unfoldable cells-IsFreeList : IsFreeList cells
unfolding push pop remove Added Same Popped count
cells-IsFreeList = record {
  Valid = AnyCells;
  free_at = count;
  few_classes = omega arith;
  push_law = λ (s : Cells) (unit c : ℕ) ok low absent. (tt, λ i u. refl);
  remove_law = λ (s : Cells) (unit c : ℕ) ok there. (tt, erase_lem s unit c there);
  pop_law = λ (s : Cells) (c : ℕ) ok low. popped s c (take_first s c) (take_lem s c);
  split_law = λ (s : Cells) (unit c : ℕ) ok here there. (tt, λ i u. refl);
  is_free_law = λ (s : Cells) (unit c : ℕ) ok low found. find_lem s unit c found;
}
  where
    popped :
        (s : Cells) (c : ℕ) (r : Option ℕ × Cells)
        → Popped AnyCells count s c r
        → Popped AnyCells count s c
            (let (found, s') = r in elim found [ none ↦ (none, s') | some unit ↦ (some unit, s') ])
    popped s c (none, s') h = h
    popped s c (some unit, s') h = h

-- One free cell of 16 units.
abbrev one_cell : Cells
one_cell = (4, 0) ∷ []

one_cell-IsBuddy : IsBuddy cells cells-IsFreeList one_cell
unfolding cover sum_below single inside count cells-IsFreeList
one_cell-IsBuddy = record {
  valid = tt;
  tidy = record {
    aligned = λ (c u : ℕ) there. rw (at_start c u there) (zero-mod (2 ^ c));
    in_range = λ (c u : ℕ) there. ground (arith, there);
    disjoint = λ (x : ℕ) fits. ground arith;
  };
}
  where
    at_start : (c u : ℕ) → 1 ≤ count one_cell c u → u ≡ 0
    at_start c u h = ground (arith, h)

-- An allocation of one unit from it.
allocate_aligned_units_example :
    Allocated cells cells-IsFreeList one_cell 0 (allocate_aligned_units cells one_cell 0)
allocate_aligned_units_example =
    allocate_aligned_units_lem cells cells-IsFreeList one_cell 0 one_cell-IsBuddy (omega arith)

-- What is left of it: the second halves of the cells that were split.
abbrev without_first : Cells
without_first = (0, 1) ∷ (1, 2) ∷ (2, 4) ∷ (3, 8) ∷ []

allocate_first : allocate_aligned_units cells one_cell 0 ≡ (some 0, without_first)
unfolding allocate_aligned_units allocate_aligned_units_slow search_classes pop push split_down
    sibling take_first
allocate_first = refl

release-allocate_example :
    let s : Cells = release_aligned_units cells without_first 0 0 in
    IsBuddy cells cells-IsFreeList s
    × ((x : ℕ)
        → free_units cells cells-IsFreeList s x ≡ free_units cells cells-IsFreeList one_cell x)
release-allocate_example =
    release-allocate cells cells-IsFreeList one_cell without_first 0 0 one_cell-IsBuddy
      (omega arith) allocate_first

-- One free cell of one unit.
abbrev one_unit : Cells
one_unit = (0, 1) ∷ []

one_unit-IsBuddy : IsBuddy cells cells-IsFreeList one_unit
unfolding cover sum_below single inside count cells-IsFreeList
one_unit-IsBuddy = record {
  valid = tt;
  tidy = record {
    aligned = λ (c u : ℕ) there. rw (class_zero c u there) (mod_one u);
    in_range = λ (c u : ℕ) there. ground (arith, there);
    disjoint = λ (x : ℕ) fits. ground arith;
  };
}
  where
    class_zero : (c u : ℕ) → 1 ≤ count one_unit c u → c ≡ 0
    class_zero c u h = ground (arith, h)

    mod_one : (u : ℕ) → u % 2 ^ 0 ≡ 0
    mod_one u = omega arith

first_unit-InUse : InUse cells cells-IsFreeList one_unit 0 0
unfolding cover sum_below single inside count cells-IsFreeList InUse free_units
first_unit-InUse x fits = ground arith

-- The two units are merged.
release_merges : release_aligned_units cells one_unit 0 0 ≡ (1, 0) ∷ []
unfolding release_aligned_units release_loop push remove sibling parent find erase is
release_merges = refl

release_aligned_units_example :
    Grown cells cells-IsFreeList one_unit (release_aligned_units cells one_unit 0 0) 0 0
release_aligned_units_example =
    release_aligned_units_lem cells cells-IsFreeList one_unit 0 0 one_unit-IsBuddy (omega arith)
      refl (omega arith) first_unit-InUse

-- The lists of `IntrusiveFreeList`, whose smallest cell has 4 units, without a free cell.
empty_list-IsBuddy : IsBuddy lists lists_new.0 empty_source.list
empty_list-IsBuddy = empty_source-Reached.0

all-RangeInUse : (n : ℕ) → RangeInUse lists lists_new.0 (omega arith) empty_source.list 4 n
unfolding within RangeInUse
all-RangeInUse n x fits = ground (arith, empty_source-Reached.1 x (omega arith))

-- Units 4 to 15 are released, as cells of 4 units and of 8.
abbrev twelve : State
twelve = release_cell_unaligned_size lists empty_source.list 4 12

release_cell_unaligned_size_example :
    GrownRange lists lists_new.0 (omega arith) empty_source.list twelve 4 12
release_cell_unaligned_size_example =
    release_cell_unaligned_size_lem lists lists_new.0 (omega arith) empty_source.list 4 12
      empty_list-IsBuddy refl refl (omega arith) (omega arith) (omega arith) (all-RangeInUse 12)

twelve-IsBuddy : IsBuddy lists lists_new.0 twelve
twelve-IsBuddy = GrownRange.is_buddy (
    release_cell_unaligned_size_lem lists lists_new.0 (omega arith) empty_source.list 4 12
      empty_list-IsBuddy refl refl (omega arith) (omega arith) (omega arith) (all-RangeInUse 12))

class_of_five : log_ceil (rounded lists lists_new.0 (omega arith) 5) ≡ 3
unfolding log_ceil rounded
class_of_five = refl

-- Five units are rounded up to eight.
allocate_cell_unaligned_size_example :
    UnalignedAllocated lists lists_new.0
      (omega arith)
      twelve
      (rounded lists lists_new.0 (omega arith) 5)
      (allocate_cell_unaligned_size lists twelve 5)
allocate_cell_unaligned_size_example =
    allocate_cell_unaligned_size_lem lists lists_new.0 (omega arith) twelve 5 twelve-IsBuddy
      (omega arith) (omega arith) (omega arith)
      (subst (λ (c : ℕ). c ≤ 18) (sym class_of_five) (omega arith))
