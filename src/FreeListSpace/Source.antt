-- ===== src/FreeListSpace/Source.antt =====
-- The free list of `FreeListAllocator`, an `IntrusiveFreeList` over any lists of cells that obey the laws of the buddy allocator, with
-- pages of 2 MB that are taken from the space one after the other, as `acquire_block` does while its stack is empty.
pub mod Cells
pub mod Pages
use native.Mathlib.Nat.{div-add-mod, mul-mod_left, mod-eq_of_lt, mod-lt}
use malloc_kit.Base.{
  ℕ, zero, suc, ◌+◌, ◌-◌, ◌*◌, ◌/◌, ◌%◌, ◌^◌, ◌≤◌, ◌<◌, ◌≡◌, ◌⊎◌, inl, inr, max, arith, refl, sym,
  ◌∙◌, ap, subst, Bool-cases, ◌==◌, true, Option, none, some, if◌then◌else◌, ltb, ltb→lt, pow_mono,
  pow_pos, pow-add, wrapping_add, wrapping_sub, ◌<<<◌, ◌>>>◌, log_ceil,
}
use malloc_kit.Powers.{log_ceil-le}
use malloc_kit.Address.{Address}
use malloc_kit.Address.Align.{aligned_weaken, aligned_add}
use malloc_kit.Chain.{Memory, store}
use malloc_kit.Buddy.{
  FreeList, UnitRange, size_class, push, allocate_aligned_units, allocate_cell_aligned_size,
  release_aligned_units, release_cell_aligned_size, release_loop,
}
use malloc_kit.Buddy.Cover.{inside, single, sum_below, cover, Added, IsFreeList, IsTidy}
use malloc_kit.Buddy.Allocate.{
  IsBuddy, free_units, InUse, Grown, Shrunk, NoneFree, Allocated, allocate_aligned_units_lem,
  nowhere_free,
}
use malloc_kit.Buddy.Release.{release_aligned_units_lem}
use malloc_kit.Intrusive
use malloc_kit.Intrusive.{
  AddressRange, unit_to_cell, cell_to_unit, process_input_units, cell_units, range_of,
}
use malloc_kit.Intrusive.Laws.{cell_units_lem, size_class-pow}
use malloc_kit.FreeListSpace.{CellSource}
use malloc_kit.FreeListSpace.Place.{IsCellRange}
use malloc_kit.FreeListSpace.Laws.{IsCellSource}

module _ (f : FreeList) (base limit : ℕ) where
  -- The free list, the number of pages that were taken, and memory.
  pub record Source : Type 0 where
    pub list : FreeList.State f
    pub next : ℕ
    pub contents : Memory

  unfoldable pub allocate : Source → ℕ → Option AddressRange × Source
  allocate s bytes =
      let r = Intrusive.allocate_cell f base s.list bytes in
      (r.0, record { list = r.1; next = s.next; contents = s.contents })

  unfoldable pub add : Source → Address → ℕ → Source
  add s start bytes = record {
    list = Intrusive.add_units f base s.list start bytes;
    next = s.next;
    contents = s.contents;
  }

  unfoldable pub next_page : Source → Option Address × Source
  next_page s =
      if ltb s.next limit
      then (
        some (base + s.next * 2 ^ 21),
        record { list = s.list; next = suc s.next; contents = s.contents },
      )
      else (none, s)

  abbrev pub fresh_source : CellSource
  fresh_source = record {
    State = Source;
    allocate_cell = allocate;
    release_cell = λ (s : Source) (start : Address) (bytes : ℕ). record {
      list = Intrusive.release_cell f base s.list start bytes;
      next = s.next;
      contents = s.contents;
    };
    add_units = add;
    refill = next_page;
    memory = λ (s : Source) (a : Address). s.contents a % 2 ^ 64;
    write = λ (s : Source) (a : Address) (v : ℕ). record {
      list = s.list;
      next = s.next;
      contents = store s.contents a v;
    };
  }

  -- `allocate_cell` in terms of what the buddy allocator returns.
  abbrev pub to_range : ℕ → Option ℕ × FreeList.State f → Option AddressRange × FreeList.State f
  to_range units r =
      let cell : Option UnitRange × FreeList.State f = elim r.0 [
        | none ↦ (none, r.1)
        | some start ↦ (some (record { start = start; end = wrapping_add start units }), r.1)
      ] in
      elim cell.0 [ none ↦ (none, cell.1) | some range ↦ (some (range_of f base range), cell.1) ]

  pub allocate-eq :
      (l : FreeList.State f) (bytes : ℕ)
      → Intrusive.allocate_cell f base l bytes
        ≡ to_range (cell_units bytes) (allocate_aligned_units f l (size_class f (cell_units bytes)))
  unfolding Intrusive.allocate_cell allocate_cell_aligned_size
  allocate-eq l bytes = refl

module _ (f : FreeList) (law : IsFreeList f) (base limit : ℕ) where
  -- The free cells are in the pages that were taken.
  abbrev pub Reached : Source f base limit → Type 0
  Reached s =
      IsBuddy f law s.list
      × ((x : ℕ) → s.next * 2 ^ 18 ≤ x → free_units f law s.list x ≡ 0)
      × (s.next ≤ limit)

  unfoldable pub Handed : Option AddressRange × Source f base limit → ℕ → FreeList.State f → Type 0
  Handed (none, s') bytes before = Reached s' × ((u : ℕ) → law.free_at before 18 u ≡ 0)
  Handed (some r, s') bytes before = Reached s' × IsCellRange bytes r
