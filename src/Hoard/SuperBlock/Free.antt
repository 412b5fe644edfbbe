-- ===== src/Hoard/SuperBlock/Free.antt =====
-- `SuperBlock::free_cell`, and how it undoes `alloc_cell`.
use malloc_kit.Base.{
  ℕ, zero, suc, ◌+◌, ◌-◌, ◌*◌, ◌%◌, ◌^◌, ◌≤◌, ◌≡◌, ◌↔◌, inl, inr, true, false, some, List, [], ◌∷◌,
  arith, refl, ap, length, ◌==◌, Bool-cases, ==→eq, eq→==, ne→==, ge→ltb, if◌then◌else◌,
}
use malloc_kit.Address.{Address}
use malloc_kit.Chain.{Memory, has, Distinct}
use malloc_kit.Chain.Laws.{Chain-push}
use malloc_kit.Region
use malloc_kit.Region.Laws.{containing-eq}
use malloc_kit.Hoard.SuperBlock.{
  BlockMeta, log_bytes, meta_size, cell_bytes, is_empty, alloc_cell, free_cell,
}
use malloc_kit.Hoard.SuperBlock.Invariant.{
  IsBlock, IsCell, AllCells, AllCells-has, first_cell, size_of, size_bounds, cell_bytes-eq,
  block_bytes,
}

-- The list without the first occurrence of a cell.
pub erase : Address → List Address → List Address
erase a [] = []
erase a (x ∷ xs) = if a == x then xs else x ∷ erase a xs

length-erase :
    (a : Address) (xs : List Address) → has a xs ≡ true → length xs ≡ suc (length (erase a xs))
unfolding erase
length-erase a [] h = cc
length-erase a (x ∷ xs) h = ground (arith, length-erase a xs)

has-erase_ne : (a b : Address) (xs : List Address) → has b xs ≡ false → has b (erase a xs) ≡ false
unfolding erase
has-erase_ne a b [] h = refl
has-erase_ne a b (x ∷ xs) h = ground (arith, has-erase_ne a b xs)

has-erase_self : (a : Address) (xs : List Address) → Distinct xs → has a (erase a xs) ≡ false
unfolding erase
has-erase_self a [] d = refl
has-erase_self a (x ∷ xs) d = ground (arith, has-erase_self a xs, d.0, d.1)

has-erase : (a b : Address) (xs : List Address) → has b (erase a xs) ≡ true → has b xs ≡ true
unfolding erase
has-erase a b [] h = h
has-erase a b (x ∷ xs) h = ground (arith, has-erase a b xs)

Distinct-erase : (a : Address) (xs : List Address) → Distinct xs → Distinct (erase a xs)
unfolding erase
Distinct-erase a [] d = tt
Distinct-erase a (x ∷ xs) d = elim (Bool-cases (a == x)) [
  | inl e ↦ rw e d.1
  | inr e ↦ rw e (has-erase_ne a x xs d.0, Distinct-erase a xs d.1)
]

AllCells-erase :
    (block size first bump a : ℕ) (xs : List Address)
    → AllCells block size first bump xs
    → AllCells block size first bump (erase a xs)
unfolding erase
AllCells-erase block size first bump a [] h = tt
AllCells-erase block size first bump a (x ∷ xs) h = elim (Bool-cases (a == x)) [
  | inl e ↦ rw e h.1
  | inr e ↦ rw e (h.0, AllCells-erase block size first bump a xs h.1)
]

zero_of_mul-pos : (n s : ℕ) → 1 ≤ s → n * s ≡ 0 → n ≡ 0
zero_of_mul-pos zero s h e = refl
zero_of_mul-pos (suc n) s h e = absurd (omega arith)

module _ {block : Address} {m : Memory} {b : BlockMeta} {live free : List Address}
    (v : IsBlock block m b live free) (a : Address) (used : has a live ≡ true) where
  cell : IsCell block (size_of b) (first_cell b.size_class) b.bump_cursor a
  cell =
      AllCells-has block (size_of b) (first_cell b.size_class) b.bump_cursor a live v.live_cells
        used

  -- Freeing a cell in use takes it out of use, subtracts its size from `used_bytes`, and keeps the
  -- invariant: the cell becomes the head of the chain.
  pub free_cell-IsBlock :
      let (m', b') = free_cell m b a in
      IsBlock block m' b' (erase a live) (a ∷ free) × (b'.used_bytes + size_of b ≡ b.used_bytes)
  unfolding free_cell
  free_cell-IsBlock =
      let bounds = size_bounds b.size_class v.class in
      let count = length-erase a live used in
      let total : b.used_bytes ≡ length (erase a live) * size_of b + size_of b =
        omega (arith, v.used, ap (λ (n : ℕ). n * size_of b) count) in
      let less : (b.used_bytes + 2 ^ 32 - size_of b) % 2 ^ 32 ≡ b.used_bytes - size_of b =
        omega (arith, bounds, total, v.cells, v.cursor_high) in
      rw (cell_bytes-eq b v.class, less)
        (
          record {
            class = v.class;
            placed = v.placed;
            cursor_low = v.cursor_low;
            cursor_high = v.cursor_high;
            cursor_aligned = v.cursor_aligned;
            used = omega (arith, total);
            cells = omega (arith, total, v.cells);
            chain =
                Chain-push m b.head_cell a free (omega (arith, cell.low)) (v.apart a used) v.chain;
            live_cells =
                AllCells-erase block (size_of b) (first_cell b.size_class) b.bump_cursor a live
                  v.live_cells;
            free_cells = (cell, v.free_cells);
            live_distinct = Distinct-erase a live v.live_distinct;
            free_distinct = (v.apart a used, v.free_distinct);
            apart = λ x e.
                ground
                  (arith, has-erase a x live, has-erase_self a live v.live_distinct, v.apart x);
          },
          omega (arith, total),
        )

  -- A cell in use leads back to its block.
  containing-cell : block % 2 ^ 18 ≡ 0 → Region.containing log_bytes meta_size a ≡ block
  containing-cell aligned =
      containing-eq log_bytes meta_size (omega arith) block a aligned (omega (arith, cell.low))
        (omega (arith, cell.high, v.cursor_high))
        (omega (arith, cell.high, v.cursor_high, v.placed))

  less_used : (b.used_bytes + 2 ^ 32 - cell_bytes b) % 2 ^ 32 ≡ b.used_bytes - size_of b
  less_used =
      let bounds = size_bounds b.size_class v.class in
      let count = length-erase a live used in
      rw (cell_bytes-eq b v.class)
        (omega (arith, bounds, v.used, ap (λ (n : ℕ). n * size_of b) count, v.cells, v.cursor_high))

  -- A block is empty exactly when its only cell in use is freed.
  is_empty-free_cell : (is_empty (free_cell m b a).1 ≡ true) ↔ (length live ≡ 1)
  unfolding is_empty free_cell
  is_empty-free_cell =
      let bounds = size_bounds b.size_class v.class in
      let count = length-erase a live used in
      let row = ap (λ (n : ℕ). n * size_of b) count in
      rw less_used (
        (λ h. omega (
          arith,
          count,
          zero_of_mul-pos (length (erase a live)) (size_of b) (omega arith)
              (omega (arith, row, ==→eq (b.used_bytes - size_of b) 0 h, v.used)),
        )),
        (λ h.
            eq→== (b.used_bytes - size_of b) 0
              (omega (arith, row, ap (λ (n : ℕ). n * size_of b) h, v.used))),
      )

  -- Where the cursor is at the end, the cell that was freed last is handed out next, and the
  -- metadata are as before.
  pub alloc_cell-free_cell :
      b.bump_cursor ≡ 2 ^ 18
      → let (m', b') = free_cell m b a in alloc_cell block m' b' ≡ (some a, b)
  unfolding free_cell alloc_cell
  alloc_cell-free_cell end =
      let bounds = size_bounds b.size_class v.class in
      let low : size_of b ≤ b.used_bytes =
        omega (arith, v.used, ap (λ (n : ℕ). n * size_of b) (length-erase a live used)) in
      rw
        (
          less_used,
          block_bytes,
          ge→ltb b.bump_cursor (2 ^ 18) (omega arith),
          ne→== a 0 (omega (arith, cell.low)),
          eq→== a a refl,
          cell_bytes-eq b v.class,
        )
        (ground (arith, low, v.cells, v.cursor_high))
