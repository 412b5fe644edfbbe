-- ===== src/Hoard/EmptyClass.antt =====
-- hoard/src/pool.rs: `EmptyClass`, the doubly linked lists of the blocks of one size class by how full they are. The index of
-- a group is in range as long as a block uses no more bytes than it has for cells.
pub mod Laws
pub mod Links
pub mod Lists
pub mod Take
pub mod Moves
pub mod Transfer
pub mod Search
pub mod Used
pub mod Kept
pub mod Tests
use malloc_kit.Base.{
  ℕ, zero, suc, ◌+◌, ◌*◌, ◌/◌, ◌%◌, ◌^◌, Bool, true, false, ◌&&◌, ◌==◌, if◌then◌else◌, ltb, List,
  Option, none, some, get_or, set, replicate, wrapping_add, wrapping_sub, ◌<<<◌, ◌>>>◌,
}
use malloc_kit.Address.{Address}
use malloc_kit.SizeClass
use malloc_kit.Region
use malloc_kit.Chain.{Memory}
use malloc_kit.Hoard.SuperBlock

abbrev pub emptiness_classes : ℕ
emptiness_classes = 8

abbrev pub group_count : ℕ
group_count = 10

-- The heads of the lists. Group 0 has the empty blocks and the last group the full ones.
abbrev pub EmptyClass : Type 0
EmptyClass = List (Option Address)

-- The metadata of the blocks, by the block's address.
abbrev pub Metas : Type 0
Metas = Address → SuperBlock.BlockMeta

abbrev pub update : Metas → Address → SuperBlock.BlockMeta → Metas
update m block meta a = if a == block then meta else m a

-- `block == Some(b)`
unfoldable pub is_block : Option Address → Address → Bool
is_block none b = false
is_block (some a) b = a == b

unfoldable pub set_next : Metas → Option Address → Option Address → Metas
set_next m none next = m
set_next m (some block) next = update m block (record (m block) { next = next })

unfoldable pub set_prev : Metas → Option Address → Option Address → Metas
set_prev m none prev = m
set_prev m (some block) prev = update m block (record (m block) { prev = prev })

abbrev pub data_bytes : ℕ
data_bytes = Region.data_bytes SuperBlock.log_bytes SuperBlock.meta_size

unfoldable pub new : EmptyClass
new = replicate group_count none

-- The bytes of a block that its cells can take.
unfoldable pub cell_space : SuperBlock.BlockMeta → ℕ
cell_space b =
    let log = SizeClass.log_bytes SuperBlock.log_coverage b.size_class in
    (data_bytes >>> log) <<< log

unfoldable pub group : SuperBlock.BlockMeta → ℕ
group b = if b.used_bytes == 0 then 0 else 1 + emptiness_classes * b.used_bytes / cell_space b

-- The block becomes the head of its new list.
unfoldable pub push_front : EmptyClass → Metas → Address → ℕ → EmptyClass × Metas
push_front groups m block group =
    let head = get_or groups group none in
    let m1 =
      update m block (record (m block) { group = group % 2 ^ 8; next = head; prev = none }) in
    (set groups group (some block), set_prev m1 head (some block))

-- The block leaves the list of a group.
unfoldable pub unlink : EmptyClass → Metas → Address → ℕ → EmptyClass × Metas
unlink groups m block group =
    let m1 = set_next m (m block).prev (m block).next in
    (
      if is_block (get_or groups group none) block then set groups group (m block).next else groups,
      set_prev m1 (m1 block).next (m1 block).prev,
    )

unfoldable pub transfer : EmptyClass → Metas → Address → (oldg newg : ℕ) → EmptyClass × Metas
transfer groups m block oldg newg =
    let (groups', m') = unlink groups m block oldg in
    if is_block (get_or groups newg none) block
    then (groups, m)
    else if newg == oldg
    then (groups, m)
    else push_front groups' m' block newg

unfoldable pub put : EmptyClass → Metas → Address → EmptyClass × Metas
put groups m block = push_front groups m block (group (m block))

unfoldable pub remove : EmptyClass → Metas → Address → EmptyClass × Metas
remove groups m block = unlink groups m block (m block).group

unfoldable pub pop : EmptyClass → Metas → ℕ → Option Address × EmptyClass × Metas
pop groups m group = elim (get_or groups group none) [
  | none ↦ (none, groups, m)
  | some block ↦ (some block, set groups group (m block).next, set_prev m (m block).next none)
]

-- The inner loop, with fuel for the blocks of group `i`: a block that has become fuller goes to its group.
unfoldable pub pop_group : ℕ → EmptyClass → Metas → ℕ → Option Address × EmptyClass × Metas
pop_group zero groups m i = (none, groups, m)
pop_group (suc fuel) groups m i =
    let (found, groups', m') = pop groups m i in
    elim found [
      | none ↦ (none, groups', m')
      | some block ↦
          let (groups'', m'') = put groups' m' block in
          let rest = pop_group fuel groups'' m'' i in
          if ltb i (group (m' block)) then rest else (some block, groups', m')
    ]

-- The outer loop, from group `i` on, for `left` more groups.
unfoldable pub pop_groups :
    ℕ → EmptyClass → Metas → (i left : ℕ) → Option Address × EmptyClass × Metas
pop_groups fuel groups m i zero = (none, groups, m)
pop_groups fuel groups m i (suc left) =
    let (found, groups', m') = pop_group fuel groups m i in
    let rest = pop_groups fuel groups' m' (suc i) left in
    elim found [ none ↦ rest | some block ↦ (some block, groups', m') ]

unfoldable pub pop_most_empty_block : ℕ → EmptyClass → Metas → Option Address × EmptyClass × Metas
pop_most_empty_block fuel groups m = pop_groups fuel groups m 0 (emptiness_classes + 1)

unfoldable pub free_cell :
    EmptyClass → Metas → Memory → Address → Address → EmptyClass × Metas × Memory
free_cell groups m memory a b =
    let oldg = group (m b) in
    let (memory', meta) = SuperBlock.free_cell memory (m b) a in
    let m' = update m b meta in
    let newg = group meta in
    let (groups', m'') = transfer groups m' b oldg newg in
    if oldg == newg then (groups, m', memory') else (groups', m'', memory')
