-- ===== src/Hoard/BlockList.antt =====
-- hoard/src/pool.rs: `BlockList`, the blocks of one size class with the block that is allocated from. The lock around it and
-- the pool above it are not modelled.
pub mod Invariant
pub mod Put
pub mod Remove
pub mod Pop
pub mod Free
pub mod Tests
use malloc_kit.Base.{
  ℕ, zero, suc, ◌*◌, ◌%◌, ◌^◌, Bool, ◌&&◌, if◌then◌else◌, ltb, Option, none, some, wrapping_add,
  wrapping_sub, ◌>>>◌,
}
use malloc_kit.Address.{Address}
use malloc_kit.SizeClass
use malloc_kit.Region
use malloc_kit.Chain.{Memory}
use malloc_kit.Hoard.SuperBlock
use malloc_kit.Hoard.EmptyClass
use malloc_kit.Hoard.EmptyClass.{EmptyClass, Metas, update, is_block, data_bytes, emptiness_classes}

pub record BlockList : Type 0 where
  pub cache : Option Address
  pub groups : EmptyClass
  pub used_bytes : ℕ
  pub total_bytes : ℕ

unfoldable pub new : BlockList
new = record { cache = none; groups = EmptyClass.new; used_bytes = 0; total_bytes = 0 }

-- `log_obj_size` is less than 64.
unfoldable pub should_flush : BlockList → ℕ → Bool
should_flush l log_obj_size =
    ltb (emptiness_classes * l.used_bytes % 2 ^ 64) (7 * l.total_bytes % 2 ^ 64)
    && ltb
        (wrapping_add l.used_bytes
          (2 * Region.bytes SuperBlock.log_bytes SuperBlock.meta_size >>> log_obj_size))
        l.total_bytes

unfoldable pub inc_used_bytes : BlockList → ℕ → BlockList
inc_used_bytes l bytes = record l { used_bytes = wrapping_add l.used_bytes bytes }

unfoldable pub dec_used_bytes : BlockList → ℕ → BlockList
dec_used_bytes l bytes = record l { used_bytes = wrapping_sub l.used_bytes bytes }

unfoldable pub inc_total_bytes : BlockList → ℕ → BlockList
inc_total_bytes l bytes = record l { total_bytes = wrapping_add l.total_bytes bytes }

unfoldable pub dec_total_bytes : BlockList → ℕ → BlockList
dec_total_bytes l bytes = record l { total_bytes = wrapping_sub l.total_bytes bytes }

unfoldable pub remove : BlockList → Metas → Address → BlockList × Metas
remove l m block =
    let l1 = dec_total_bytes (dec_used_bytes l (m block).used_bytes) data_bytes in
    let (groups, m') = EmptyClass.remove l1.groups m block in
    if is_block l1.cache block
    then (record l1 { cache = none }, m)
    else (record l1 { groups = groups }, m')

unfoldable pub pop_most_empty_block : ℕ → BlockList → Metas → Option Address × BlockList × Metas
pop_most_empty_block fuel l m =
    let (found, groups, m') = EmptyClass.pop_most_empty_block fuel l.groups m in
    elim l.cache [
      | some block ↦ (
        some block,
        dec_used_bytes (dec_total_bytes (record l { cache = none }) data_bytes)
            (m block).used_bytes,
        m,
      )
      | none ↦ elim found [
        | none ↦ (none, record l { groups = groups }, m')
        | some block ↦ (
          some block,
          dec_used_bytes (dec_total_bytes (record l { groups = groups }) data_bytes)
              (m' block).used_bytes,
          m',
        )
      ]
    ]

-- The block that was the cache goes to the lists.
unfoldable pub put_cache : EmptyClass → Metas → Option Address → EmptyClass × Metas
put_cache groups m none = (groups, m)
put_cache groups m (some block) = EmptyClass.put groups m block

unfoldable pub put : BlockList → Metas → Address → BlockList × Metas
put l m block =
    let (groups, m') = put_cache l.groups m l.cache in
    let l1 = record l { groups = groups; cache = some block } in
    if is_block l.cache block
    then (l, m)
    else (inc_used_bytes (inc_total_bytes l1 data_bytes) (m' block).used_bytes, m')

-- One round of the loop: the cache, or a block from the lists.
unfoldable pub take_block : ℕ → BlockList → Metas → Option Address × BlockList × Metas
take_block fuel l m =
    let (found, groups, m') = EmptyClass.pop_most_empty_block fuel l.groups m in
    elim l.cache [
      | some block ↦ (some block, l, m)
      | none ↦ (found, record l { groups = groups; cache = found }, m')
    ]

-- The loop has fuel for the blocks that are full, and each search of the lists for the blocks that move.
unfoldable pub alloc_cell_slow :
    ℕ → BlockList → Metas → Memory → ℕ → Option Address × BlockList × Metas
alloc_cell_slow zero l m memory size_class = (none, l, m)
alloc_cell_slow (suc fuel) l m memory size_class =
    let (found, l', m') = take_block fuel l m in
    elim found [
      | none ↦ (none, l', m')
      | some block ↦
          let (cell, meta) = SuperBlock.alloc_cell block memory (m' block) in
          let (groups, m'') = EmptyClass.put l'.groups m' block in
          let rest =
            alloc_cell_slow fuel (record l' { cache = none; groups = groups }) m'' memory
              size_class in
          elim cell [
            | some a ↦ (
              some a,
              inc_used_bytes l' (SizeClass.bytes SuperBlock.log_coverage size_class),
              update m' block meta,
            )
            | none ↦ rest
          ]
    ]

unfoldable pub alloc_cell : ℕ → BlockList → Metas → Memory → ℕ → Option Address × BlockList × Metas
alloc_cell fuel l m memory size_class =
    let slow = alloc_cell_slow fuel l m memory size_class in
    elim l.cache [
      | none ↦ slow
      | some block ↦
          let (cell, meta) = SuperBlock.alloc_cell block memory (m block) in
          elim cell [
            | some a ↦ (
              some a,
              inc_used_bytes l (SizeClass.bytes SuperBlock.log_coverage size_class),
              update m block meta,
            )
            | none ↦ slow
          ]
    ]

unfoldable pub free_cell :
    BlockList → Metas → Memory → Address → Address → ℕ → BlockList × Metas × Memory
free_cell l m memory a block size_class =
    let (memory', meta) = SuperBlock.free_cell memory (m block) a in
    let (groups, m'', memory'') = EmptyClass.free_cell l.groups m memory a block in
    let bytes = SizeClass.bytes SuperBlock.log_coverage size_class in
    if is_block l.cache block
    then (dec_used_bytes l bytes, update m block meta, memory')
    else (dec_used_bytes (record l { groups = groups }) bytes, m'', memory'')
