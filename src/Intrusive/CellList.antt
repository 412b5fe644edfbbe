-- ===== src/Intrusive/CellList.antt =====
-- mallockit/src/util/mem/freelist/intrusive_freelist.rs: the doubly linked lists of free cells of `IntrusiveFreeList`, one for
-- each size class, linked through the cells. A pointer to a cell is written as the unit that the cell starts at,
-- which `unit_to_cell` and `cell_to_unit` translate; a cell is 4 units long, and no class is smaller.
pub mod Writes
pub mod Cells
pub mod Taken
pub mod Invariant
pub mod Take
pub mod Push
pub mod Tests
pub mod Laws
use malloc_kit.Base.{
  ℕ, ◌-◌, ◌%◌, ◌^◌, Bool, ◌&&◌, ◌==◌, if◌then◌else◌, Option, none, some, List, get_or, set,
  replicate,
}
use malloc_kit.Address.{Address}
use malloc_kit.Linked.{points_to}
use malloc_kit.Buddy.{FreeList, sibling}

-- The fields of a cell. `is_free` is the two numbers of the source: whether it is free, and its class.
pub record Cell : Type 0 where
  pub free : ℕ
  pub class : ℕ
  pub owner : Address
  pub prev : Option ℕ
  pub next : Option ℕ

-- The heads of the lists, and the cells in memory.
pub record State : Type 0 where
  pub table : List (Option ℕ)
  pub cell : ℕ → Cell

abbrev pub write : (ℕ → Cell) → ℕ → Cell → ℕ → Cell
write m u c v = if v == u then c else m v

-- `if let Some(mut p) = p { p.prev = prev }`, and the same for `next`.
unfoldable pub write_prev : (ℕ → Cell) → Option ℕ → Option ℕ → ℕ → Cell
write_prev m none prev = m
write_prev m (some p) prev = write m p (record (m p) { prev = prev })

unfoldable pub write_next : (ℕ → Cell) → Option ℕ → Option ℕ → ℕ → Cell
write_next m none next = m
write_next m (some p) next = write m p (record (m p) { next = next })

-- `self` is the address of the list, which marks the cells that it owns.
module _ (self : Address) where
  unfoldable pub is_free : State → ℕ → ℕ → Bool
  is_free s unit size_class =
      let c = s.cell unit in c.free == 1 && c.class == size_class % 2 ^ 32 && c.owner == self

  unfoldable pub set_as_free : State → ℕ → ℕ → State
  set_as_free s unit size_class = record s {
    cell = write s.cell unit (record (s.cell unit) { free = 1; class = size_class % 2 ^ 32 });
  }

  unfoldable pub set_as_used : State → ℕ → ℕ → State
  set_as_used s unit size_class = record s {
    cell = write s.cell unit (record (s.cell unit) { free = 0; class = 0 });
  }

  unfoldable pub split_cell : State → ℕ → ℕ → State
  split_cell s parent parent_size_class =
      let child = parent_size_class - 1 in
      set_as_used (set_as_used s parent child) (sibling parent child) child

  unfoldable pub push_cell : State → ℕ → ℕ → State
  push_cell s unit size_class =
      let head = get_or s.table size_class none in
      let m1 = write s.cell unit (record (s.cell unit) {
        prev = none;
        owner = self;
        free = 1;
        class = size_class % 2 ^ 32;
      }) in
      let m2 = write_prev m1 head (some unit) in
      record {
        table = set s.table size_class (some unit);
        cell = write m2 unit (record (m2 unit) { next = head });
      }

  unfoldable pub pop_cell : State → ℕ → Option ℕ × State
  pop_cell s size_class = elim (get_or s.table size_class none) [
    | none ↦ (none, s)
    | some head ↦
        let next = (s.cell head).next in
        let m1 = write_prev s.cell next none in
        (
          some head,
          record {
            table = set s.table size_class next;
            cell = write m1 head (record (m1 head) { free = 0; class = 0; owner = 0 });
          },
        )
  ]

  unfoldable pub remove_cell : State → ℕ → ℕ → State
  remove_cell s unit size_class =
      let next = (s.cell unit).next in
      let prev = (s.cell unit).prev in
      let table' =
        if points_to (get_or s.table size_class none) unit
        then set s.table size_class next
        else s.table in
      let table : List (Option ℕ) = elim prev [ some p ↦ s.table | none ↦ table' ] in
      let m1 = write_prev (write_next s.cell prev next) next prev in
      record {
        table = table;
        cell = write m1 unit (record (m1 unit) { free = 0; class = 0; owner = 0 });
      }

  -- The list as an implementation of the trait. `num_size_class` and `threshold` come from the configuration.
  abbrev pub intrusive : (num_size_class threshold : ℕ) → FreeList
  intrusive num_size_class threshold = record {
    State = State;
    min_size_class = 2;
    num_size_class = num_size_class;
    threshold = threshold;
    is_free = is_free;
    set_as_free = set_as_free;
    set_as_used = set_as_used;
    pop_cell = pop_cell;
    push_cell = push_cell;
    remove_cell = remove_cell;
    split_cell = split_cell;
  }

  -- No cell is free at first; `cell` is what the memory holds.
  unfoldable pub new : ℕ → (ℕ → Cell) → State
  new num_size_class cell = record { table = replicate num_size_class none; cell = cell }
