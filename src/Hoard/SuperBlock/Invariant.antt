-- ===== src/Hoard/SuperBlock/Invariant.antt =====
-- The cells of a block: each is either free, in the chain of freed cells or behind the cursor, or
-- handed out.
use malloc_kit.Base.{
  ℕ, ◌+◌, ◌-◌, ◌*◌, ◌%◌, ◌^◌, ◌≤◌, ◌<◌, ◌≡◌, inl, inr, true, false, List, [], ◌∷◌, arith, refl,
  length, ◌==◌, pow_mono, wrapping_add, Bool-cases, ==→eq, ◌&&◌, table_holds, table_holds_lem,
  next_power_of_two,
}
use Prim.Native.Nat.{max}
use malloc_kit.Address.{Address, align_up}
use malloc_kit.SizeClass
use malloc_kit.SizeClass.Laws.{bytes-eq}
use malloc_kit.Region
use malloc_kit.Chain.{Memory, Chain, has, Distinct}
use malloc_kit.Hoard.SuperBlock.{BlockMeta, log_coverage, log_bytes, meta_size, cell_bytes, init}

-- The offset of the first cell: the metadata, rounded up to a cell.
abbrev pub first_cell : ℕ → ℕ
first_cell c = max 64 (2 ^ (c + 4))

-- An address at which a cell of the block starts.
pub record IsCell (block size first bump a : ℕ) : Type 0 where
  pub low : block + first ≤ a
  pub high : a < block + bump
  pub aligned : (a - block) % size ≡ 0

abbrev pub AllCells : (block size first bump : ℕ) → List Address → Type 0
AllCells block size first bump [] = Unit
AllCells block size first bump (a ∷ xs) =
    IsCell block size first bump a × AllCells block size first bump xs

-- `live` are the cells handed out, `free` those in the chain.
pub record IsBlock (block : Address) (m : Memory) (b : BlockMeta) (live free : List Address)
    : Type 0 where
  pub class : b.size_class ≤ 12
  pub placed : block + 2 ^ 18 < 2 ^ 64
  pub cursor_low : first_cell b.size_class ≤ b.bump_cursor
  pub cursor_high : b.bump_cursor ≤ 2 ^ 18
  pub cursor_aligned : b.bump_cursor % 2 ^ (b.size_class + 4) ≡ 0
  pub used : b.used_bytes ≡ length live * 2 ^ (b.size_class + 4)
  pub cells :
      b.used_bytes + length free * 2 ^ (b.size_class + 4) ≡ b.bump_cursor - first_cell b.size_class
  pub chain : Chain m b.head_cell free
  pub live_cells :
      AllCells block (2 ^ (b.size_class + 4)) (first_cell b.size_class) b.bump_cursor live
  pub free_cells :
      AllCells block (2 ^ (b.size_class + 4)) (first_cell b.size_class) b.bump_cursor free
  pub live_distinct : Distinct live
  pub free_distinct : Distinct free
  pub apart : (a : Address) → has a live ≡ true → has a free ≡ false

abbrev pub size_of : BlockMeta → ℕ
size_of b = 2 ^ (b.size_class + 4)

-- Cell sizes are 16 to 65536 bytes.
pub size_bounds : (c : ℕ) → c ≤ 12 → (16 ≤ 2 ^ (c + 4)) × (2 ^ (c + 4) ≤ 65536)
size_bounds c h = (pow_mono 4 (c + 4) (omega arith), pow_mono (c + 4) 16 (omega arith))

pub cell_bytes-eq : (b : BlockMeta) → b.size_class ≤ 12 → cell_bytes b ≡ size_of b
cell_bytes-eq b h =
    omega (arith, bytes-eq log_coverage b.size_class (omega arith), size_bounds b.size_class h)

pub block_bytes : Region.bytes log_bytes meta_size % 2 ^ 32 ≡ 2 ^ 18
unfolding Region.bytes
block_bytes = refl

pub AllCells-mono :
    (block size first bump bump' : ℕ) (xs : List Address)
    → bump ≤ bump'
    → AllCells block size first bump xs
    → AllCells block size first bump' xs
AllCells-mono block size first bump bump' [] le h = tt
AllCells-mono block size first bump bump' (a ∷ xs) le h = (
  record { low = h.0.low; high = omega (arith, h.0.high); aligned = h.0.aligned },
  AllCells-mono block size first bump bump' xs le h.1,
)

pub AllCells-has :
    (block size first bump a : ℕ) (xs : List Address)
    → AllCells block size first bump xs
    → has a xs ≡ true
    → IsCell block size first bump a
AllCells-has block size first bump a [] h e = cc
AllCells-has block size first bump a (x ∷ xs) h e = elim (Bool-cases (a == x)) [
  | inl same ↦ rw (==→eq a x same) h.0
  | inr other ↦ AllCells-has block size first bump a xs h.1 (ground arith)
]

pub AllCells-above :
    (block size first bump a : ℕ) (xs : List Address)
    → AllCells block size first bump xs
    → block + bump ≤ a
    → has a xs ≡ false
AllCells-above block size first bump a xs h le = elim (Bool-cases (has a xs)) [
  | inl inside ↦ absurd (omega (arith, (AllCells-has block size first bump a xs h inside).high))
  | inr outside ↦ outside
]

-- The first cell is at a multiple of the cell size, and so is the end of the block.
first_cell_table :
    table_holds (λ c. (first_cell c % 2 ^ (c + 4) == 0) && (2 ^ 18 % 2 ^ (c + 4) == 0)) 13 ≡ true
unfolding table_holds
first_cell_table = refl

pub first_cell_aligned :
    (c : ℕ) → c ≤ 12 → (first_cell c % 2 ^ (c + 4) ≡ 0) × (2 ^ 18 % 2 ^ (c + 4) ≡ 0)
first_cell_aligned c h =
    let e = table_holds_lem _ 13 first_cell_table c (omega arith) in (ground arith, ground arith)

init_table :
    table_holds
      (λ c.
        align_up
            (wrapping_add 0 (Region.meta_bytes log_bytes meta_size))
            (SizeClass.bytes log_coverage c)
          % 2 ^ 32
        == first_cell c)
      13
    ≡ true
unfolding table_holds align_up Region.meta_bytes SizeClass.bytes next_power_of_two
init_table = refl

-- A new block has all its cells behind the cursor.
pub init-IsBlock :
    (block : Address) (m : Memory) (b : BlockMeta) (c : ℕ)
    → c ≤ 12
    → block + 2 ^ 18 < 2 ^ 64
    → IsBlock block m (init b c) [] []
unfolding init
init-IsBlock block m b c h fits =
    let cursor = ==→eq _ _ (table_holds_lem _ 13 init_table c (omega arith)) in
    let aligned = first_cell_aligned c h in
    let bounds = size_bounds c h in
    rw cursor (record {
      class = h;
      placed = fits;
      cursor_low = omega arith;
      cursor_high = omega arith;
      cursor_aligned = aligned.0;
      used = omega arith;
      cells = omega arith;
      chain = refl;
      live_cells = tt;
      free_cells = tt;
      live_distinct = tt;
      free_distinct = tt;
      apart = λ a e. cc;
    })
