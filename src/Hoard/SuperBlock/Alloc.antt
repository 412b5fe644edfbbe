-- ===== src/Hoard/SuperBlock/Alloc.antt =====
-- `SuperBlock::alloc_cell` on each of its branches.
use native.Mathlib.Nat.{mod_self}
use malloc_kit.Base.{
  ℕ, ◌+◌, ◌-◌, ◌%◌, ◌^◌, ◌≤◌, ◌<◌, ◌≡◌, ◌≢◌, ◌⊎◌, inl, inr, true, false, Option, some, none, List,
  [], ◌∷◌, arith, refl, sym, subst, ltb, lt→ltb, ge→ltb, ne→==, leb→le, eq→==, ap, ◌↔◌, ◌==◌,
  multiple_gap, Bool-cases, ltb→lt, ltb→ge, ==→eq,
}
use malloc_kit.Address.{Address}
use malloc_kit.Address.Align.{aligned_add}
use malloc_kit.Chain.{Memory, has}
use malloc_kit.Hoard.SuperBlock.{BlockMeta, is_full, alloc_cell}
use malloc_kit.Hoard.SuperBlock.Invariant.{
  IsBlock, IsCell, AllCells-mono, AllCells-above, first_cell, first_cell_aligned, size_of,
  size_bounds, cell_bytes-eq, block_bytes,
}

-- A cell that was not in use is handed out, and all other cells stay as they were.
pub record Allocated (block : Address) (m : Memory) (b : BlockMeta) (live : List Address)
    (result : Option Address × BlockMeta) : Type 0 where
  pub cell : Address
  pub free : List Address
  pub returned : result.0 ≡ some cell
  pub is_cell : IsCell block (size_of b) (first_cell b.size_class) result.1.bump_cursor cell
  pub unused : has cell live ≡ false
  pub counted : result.1.used_bytes ≡ b.used_bytes + size_of b
  pub kept : IsBlock block m result.1 (cell ∷ live) free

module _ {block : Address} {m : Memory} {b : BlockMeta} {live free : List Address}
    (v : IsBlock block m b live free) where
  -- The cursor stays on cells.
  next_cursor : b.bump_cursor < 2 ^ 18 → b.bump_cursor + size_of b ≤ 2 ^ 18
  next_cursor h =
      multiple_gap (size_of b) b.bump_cursor (2 ^ 18) v.cursor_aligned
        (first_cell_aligned b.size_class v.class).1 h

  bumped : BlockMeta
  bumped = record b {
    bump_cursor = b.bump_cursor + size_of b;
    used_bytes = b.used_bytes + size_of b;
  }

  alloc_cell_fresh :
      b.bump_cursor < 2 ^ 18 → alloc_cell block m b ≡ (some (block + b.bump_cursor), bumped)
  unfolding alloc_cell bumped
  alloc_cell_fresh h =
      let bounds = size_bounds b.size_class v.class in
      rw (block_bytes, lt→ltb b.bump_cursor (2 ^ 18) h, cell_bytes-eq b v.class)
        (ground (arith, bounds, next_cursor h, v.cells, v.placed))

  fresh-IsCell :
      b.bump_cursor < 2 ^ 18
      → IsCell block
          (size_of b)
          (first_cell b.size_class)
          (b.bump_cursor + size_of b)
          (block + b.bump_cursor)
  fresh-IsCell h =
      let bounds = size_bounds b.size_class v.class in
      let offset : b.bump_cursor ≡ block + b.bump_cursor - block = omega arith in
      record {
        low = omega (arith, v.cursor_low);
        high = omega (arith, bounds);
        aligned = subst (λ (n : ℕ). n % size_of b ≡ 0) offset v.cursor_aligned;
      }

  fresh-IsBlock :
      b.bump_cursor < 2 ^ 18 → IsBlock block m bumped ((block + b.bump_cursor) ∷ live) free
  unfolding bumped
  fresh-IsBlock h =
      let bounds = size_bounds b.size_class v.class in
      let grown : b.bump_cursor ≤ b.bump_cursor + size_of b = omega arith in
      let size : ℕ = size_of b in
      let first : ℕ = first_cell b.size_class in
      let above = AllCells-above block size first b.bump_cursor (block + b.bump_cursor) in
      record {
        class = v.class;
        placed = v.placed;
        cursor_low = omega (arith, v.cursor_low);
        cursor_high = next_cursor h;
        cursor_aligned = aligned_add size b.bump_cursor size v.cursor_aligned (mod_self size);
        used = omega (arith, v.used);
        cells = omega (arith, v.cells, v.cursor_low);
        chain = v.chain;
        live_cells = (
          fresh-IsCell h,
          AllCells-mono block size first b.bump_cursor _ live grown v.live_cells,
        );
        free_cells = AllCells-mono block size first b.bump_cursor _ free grown v.free_cells;
        live_distinct = (above live v.live_cells (omega arith), v.live_distinct);
        free_distinct = v.free_distinct;
        apart = λ a e. elim (Bool-cases (a == block + b.bump_cursor)) [
          | inl new ↦ rw (==→eq a _ new) (above free v.free_cells (omega arith))
          | inr old ↦ v.apart a (ground arith)
        ];
      }

  alloc_fresh : b.bump_cursor < 2 ^ 18 → Allocated block m b live (alloc_cell block m b)
  unfolding bumped
  alloc_fresh h = rw (alloc_cell_fresh h) (record {
    cell = block + b.bump_cursor;
    free = free;
    returned = refl;
    is_cell = fresh-IsCell h;
    unused =
        AllCells-above block (size_of b) (first_cell b.size_class) b.bump_cursor
          (block + b.bump_cursor) live v.live_cells (omega arith);
    counted = refl;
    kept = fresh-IsBlock h;
  })

-- Once the cursor is at the end, the head of the chain of freed cells is handed out.
module _ {block : Address} {m : Memory} {b : BlockMeta} {live rest : List Address}
    (v : IsBlock block m b live (b.head_cell ∷ rest)) (end : b.bump_cursor ≡ 2 ^ 18) where
  reused : BlockMeta
  reused = record b { head_cell = m b.head_cell; used_bytes = b.used_bytes + size_of b }

  alloc_cell-reused : alloc_cell block m b ≡ (some b.head_cell, reused)
  unfolding alloc_cell reused
  alloc_cell-reused =
      let bounds = size_bounds b.size_class v.class in
      let nonzero : b.head_cell ≢ 0 = v.chain.1 in
      rw
        (
          block_bytes,
          ge→ltb b.bump_cursor (2 ^ 18) (omega arith),
          ne→== b.head_cell 0 nonzero,
          cell_bytes-eq b v.class,
        )
        (ground (arith, bounds, v.cells, v.cursor_high))

  reused-IsBlock : IsBlock block m reused (b.head_cell ∷ live) rest
  unfolding reused
  reused-IsBlock = record {
    class = v.class;
    placed = v.placed;
    cursor_low = v.cursor_low;
    cursor_high = v.cursor_high;
    cursor_aligned = v.cursor_aligned;
    used = omega (arith, v.used);
    cells = omega (arith, v.cells);
    chain = v.chain.2;
    live_cells = (v.free_cells.0, v.live_cells);
    free_cells = v.free_cells.1;
    live_distinct = (unused_head, v.live_distinct);
    free_distinct = v.free_distinct.1;
    apart = λ a e. elim (Bool-cases (a == b.head_cell)) [
      | inl new ↦ rw (==→eq a _ new) v.free_distinct.0
      | inr old ↦ ground (arith, v.apart a)
    ];
  }
    where
      unused_head : has b.head_cell live ≡ false
      unused_head = ground (arith, v.apart b.head_cell)

  alloc_reused : Allocated block m b live (alloc_cell block m b)
  unfolding reused
  alloc_reused = rw alloc_cell-reused (record {
    cell = b.head_cell;
    free = rest;
    returned = refl;
    is_cell = v.free_cells.0;
    unused = ground (arith, v.apart b.head_cell);
    counted = refl;
    kept = reused-IsBlock;
  })

module _ {block : Address} {m : Memory} {b : BlockMeta} {live : List Address} where
  alloc_none :
      IsBlock block m b live []
      → b.bump_cursor ≡ 2 ^ 18
      → (alloc_cell block m b ≡ (none, b)) × (b.used_bytes ≡ 2 ^ 18 - first_cell b.size_class)
  unfolding alloc_cell
  alloc_none v end = (
    rw (block_bytes, ge→ltb b.bump_cursor (2 ^ 18) (omega arith), eq→== b.head_cell 0 v.chain),
    omega (arith, v.cells),
  )

  alloc_at_end :
      (free : List Address)
      → IsBlock block m b live free
      → b.bump_cursor ≡ 2 ^ 18
      → Allocated block m b live (alloc_cell block m b)
        ⊎ (alloc_cell block m b ≡ (none, b)) × (b.used_bytes ≡ 2 ^ 18 - first_cell b.size_class)
  alloc_at_end [] v end = inr (alloc_none v end)
  alloc_at_end (c ∷ rest) v end =
      let head : c ∷ rest ≡ b.head_cell ∷ rest = ap (λ (x : ℕ). x ∷ rest) (sym v.chain.0) in
      inl (alloc_reused (subst (IsBlock block m b live) head v) end)

  -- `alloc_cell` hands out a cell of the block that is not in use and adds its size to `used_bytes`,
  -- and keeps the invariant; only where the cells in use fill the block it returns `None` and
  -- changes nothing.
  pub alloc_cell-IsBlock :
      {free : List Address}
      → IsBlock block m b live free
      → Allocated block m b live (alloc_cell block m b)
        ⊎ (alloc_cell block m b ≡ (none, b)) × (b.used_bytes ≡ 2 ^ 18 - first_cell b.size_class)
  alloc_cell-IsBlock {free} v = elim (Bool-cases (ltb b.bump_cursor (2 ^ 18))) [
    | inl room ↦ inl (alloc_fresh v (ltb→lt _ _ room))
    | inr end ↦ alloc_at_end free v (omega (arith, v.cursor_high, ltb→ge _ _ end))
  ]

  -- `is_full` says exactly that the cells in use fill the block.
  is_full_lem :
      (free : List Address)
      → IsBlock block m b live free
      → (is_full b ≡ true) ↔ (b.used_bytes ≡ 2 ^ 18 - first_cell b.size_class)
  unfolding is_full
  is_full_lem [] v =
      rw (block_bytes, eq→== b.head_cell 0 v.chain)
        (
          (λ h.
              omega (arith, leb→le (2 ^ 18) b.bump_cursor (ground arith), v.cells, v.cursor_high)),
          (λ h.
              ground
                (arith, v.cells, v.cursor_high, v.cursor_low, size_bounds b.size_class v.class)),
        )
  is_full_lem (c ∷ rest) v =
      let bounds = size_bounds b.size_class v.class in
      let nonzero : b.head_cell ≢ 0 = rw v.chain.0 v.chain.1 in
      rw (block_bytes, ne→== b.head_cell 0 nonzero)
        (
          (λ h. absurd (ground arith)),
          (λ h. absurd (omega (arith, v.cells, v.cursor_high, v.cursor_low, bounds))),
        )
