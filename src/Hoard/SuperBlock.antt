-- ===== src/Hoard/SuperBlock.antt =====
-- hoard/src/super_block.rs: a block of 2^18 bytes cut into cells of one size class.
pub mod Invariant
pub mod Alloc
pub mod Free
pub mod Tests
use malloc_kit.Base.{
  ℕ, ◌+◌, ◌-◌, ◌%◌, ◌^◌, Bool, not, ◌&&◌, Option, none, some, if◌then◌else◌, ltb, leb, ◌==◌,
  wrapping_add,
}
use malloc_kit.Address.{Address, align_up}
use malloc_kit.SizeClass
use malloc_kit.Region
use malloc_kit.Chain.{Memory, store}

abbrev pub log_bytes : ℕ
log_bytes = 18

-- `size_of::<BlockMeta>()`: a word of two `u32`s, a word for the two bytes, and four more words.
abbrev pub meta_size : ℕ
meta_size = 48

-- `SizeClass` at its default coverage.
abbrev pub log_coverage : ℕ
log_coverage = 4

-- `BlockMeta`. The cursor and the count are `u32`s; a block is its start, an owner is the address
-- of its pool.
pub record BlockMeta : Type 0 where
  pub bump_cursor : ℕ
  pub used_bytes : ℕ
  pub prev : Option Address
  pub next : Option Address
  pub size_class : ℕ
  pub group : ℕ
  pub head_cell : Address
  pub owner : Address

abbrev pub cell_bytes : BlockMeta → ℕ
cell_bytes b = SizeClass.bytes log_coverage b.size_class % 2 ^ 32

unfoldable pub init : BlockMeta → ℕ → BlockMeta
init b size_class = record b {
  size_class = size_class;
  head_cell = 0;
  bump_cursor =
      align_up (wrapping_add 0 (Region.meta_bytes log_bytes meta_size))
        (SizeClass.bytes log_coverage size_class)
      % 2 ^ 32;
  used_bytes = 0;
}

unfoldable pub is_empty : BlockMeta → Bool
is_empty b = b.used_bytes == 0

unfoldable pub is_full : BlockMeta → Bool
is_full b = leb (Region.bytes log_bytes meta_size % 2 ^ 32) b.bump_cursor && (b.head_cell == 0)

-- `block` is `self.start()`.
unfoldable pub alloc_cell : Address → Memory → BlockMeta → Option Address × BlockMeta
alloc_cell block m b =
    if ltb b.bump_cursor (Region.bytes log_bytes meta_size % 2 ^ 32)
    then (
      some (wrapping_add block b.bump_cursor),
      record b {
        bump_cursor = (b.bump_cursor + cell_bytes b) % 2 ^ 32;
        used_bytes = (b.used_bytes + cell_bytes b) % 2 ^ 32;
      },
    )
    else if not (b.head_cell == 0)
    then (
      some b.head_cell,
      record b { head_cell = m b.head_cell; used_bytes = (b.used_bytes + cell_bytes b) % 2 ^ 32 },
    )
    else (none, b)

unfoldable pub free_cell : Memory → BlockMeta → Address → Memory × BlockMeta
free_cell m b cell = (
  store m cell b.head_cell,
  record b { head_cell = cell; used_bytes = (b.used_bytes + 2 ^ 32 - cell_bytes b) % 2 ^ 32 },
)

unfoldable pub is_owned_by : BlockMeta → Address → Bool
is_owned_by b pool = b.owner == pool
