-- ===== src/Hoard/BlockList/Tests.antt =====
-- Blocks of cells of 64 bytes, of which one is in use, at 256 KiB, 512 KiB and 768 KiB.
use malloc_kit.Base.{
  ℕ, ◌∙◌, inr, true, next_power_of_two, ◌≡◌, ◌<◌, arith, refl, sym, subst, [], ◌∷◌, none,
}
use malloc_kit.Address.{Address}
use malloc_kit.SizeClass
use malloc_kit.Region
use malloc_kit.Linked.{erase}
use malloc_kit.Chain.{Memory, has}
use malloc_kit.Hoard.SuperBlock
use malloc_kit.Hoard.EmptyClass
use malloc_kit.Hoard.EmptyClass.{Metas, group, group_count, cell_space, data_bytes}
use malloc_kit.Hoard.EmptyClass.Lists.{Lists}
use malloc_kit.Hoard.BlockList
use malloc_kit.Hoard.BlockList.{BlockList, new, put, remove, pop_most_empty_block, free_cell}
use malloc_kit.Hoard.BlockList.Invariant.{used, IsBlockList, new-IsBlockList}
use malloc_kit.Hoard.BlockList.Put.{with_cache, put-IsBlockList}
use malloc_kit.Hoard.BlockList.Remove.{without, remove-IsBlockList}
use malloc_kit.Hoard.BlockList.Free.{after_free, CellFreed, free_cell-IsBlockList}
use malloc_kit.Hoard.BlockList.Pop.{Found, pop_most_empty_block-Found}

abbrev metas : Metas
metas a = record {
  bump_cursor = 128;
  used_bytes = 64;
  prev = none;
  next = none;
  size_class = 2;
  group = 0;
  head_cell = 0;
  owner = 0;
}

block_group : (a : Address) → group (metas a) ≡ 1
unfolding group cell_space Region.data_bytes next_power_of_two SizeClass.log_bytes
block_group a = refl

in_range : (a : Address) → group (metas a) < group_count
in_range a = subst (λ (n : ℕ). n < group_count) (sym (block_group a)) (omega arith)

block_room : data_bytes ≡ 262080
unfolding Region.data_bytes next_power_of_two
block_room = refl

abbrev no_lists : Lists
no_lists g = []

-- One block was put, and then a second one.
abbrev one : BlockList × Metas
one = put new metas 262144

abbrev one_lists : Lists
one_lists = with_cache no_lists metas new.cache

one-IsBlockList : IsBlockList one.0 one.1 one_lists (262144 ∷ [])
one-IsBlockList =
    put-IsBlockList new metas no_lists [] (new-IsBlockList metas in_range) 262144 refl
      (omega (arith, block_room)) (omega arith)

abbrev two : BlockList × Metas
two = put one.0 one.1 524288

abbrev two_lists : Lists
two_lists = with_cache one_lists one.1 one.0.cache

one_used : (a : Address) → used one.1 a ≡ 64
unfolding put new BlockList.put_cache EmptyClass.is_block
one_used a = refl

two-IsBlockList : IsBlockList two.0 two.1 two_lists (524288 ∷ 262144 ∷ [])
two-IsBlockList =
    put-IsBlockList one.0 one.1 one_lists (262144 ∷ []) one-IsBlockList 524288 refl
      (omega (arith, block_room)) (omega (arith, one_used 524288, one_used 262144))

put-IsBlockList_example :
    let (l', m') = put one.0 one.1 786432 in IsBlockList l' m' two_lists (786432 ∷ 262144 ∷ [])
put-IsBlockList_example =
    put-IsBlockList one.0 one.1 one_lists (262144 ∷ []) one-IsBlockList 786432 refl
      (omega (arith, block_room)) (omega (arith, one_used 786432, one_used 262144))

remove-IsBlockList_example :
    let (l', m') = remove two.0 two.1 262144 in
    IsBlockList l' m' (without two.0 two.1 two_lists 262144) (erase 262144 (524288 ∷ 262144 ∷ []))
remove-IsBlockList_example =
    remove-IsBlockList two.0 two.1 two_lists (524288 ∷ 262144 ∷ []) two-IsBlockList 262144 refl

pop_most_empty_block-Found_example :
    Found two.0 (524288 ∷ 262144 ∷ []) (pop_most_empty_block 3 two.0 two.1)
pop_most_empty_block-Found_example =
    pop_most_empty_block-Found two.0 two.1 two_lists (524288 ∷ 262144 ∷ []) two-IsBlockList 3
      (omega arith)

-- Freeing the only cell of the listed block.
abbrev zeros : Memory
zeros a = 0

two_block : (two.1 262144).used_bytes ≡ 64
unfolding put new BlockList.put_cache EmptyClass.put EmptyClass.push_front EmptyClass.set_prev
    EmptyClass.is_block BlockList.inc_used_bytes BlockList.inc_total_bytes EmptyClass.new group
    cell_space Region.data_bytes next_power_of_two SizeClass.log_bytes
two_block = refl

cell_size : SuperBlock.cell_bytes (two.1 262144) ≡ 64
unfolding put new BlockList.put_cache EmptyClass.put EmptyClass.push_front EmptyClass.set_prev
    EmptyClass.is_block BlockList.inc_used_bytes BlockList.inc_total_bytes EmptyClass.new group
    cell_space Region.data_bytes next_power_of_two SizeClass.log_bytes SizeClass.bytes
cell_size = refl

class_size : SizeClass.bytes SuperBlock.log_coverage 2 ≡ 64
unfolding SizeClass.bytes
class_size = refl

freed-group : group (SuperBlock.free_cell zeros (two.1 262144) 262208).1 ≡ 0
unfolding put new BlockList.put_cache EmptyClass.put EmptyClass.push_front EmptyClass.set_prev
    EmptyClass.is_block BlockList.inc_used_bytes BlockList.inc_total_bytes EmptyClass.new group
    cell_space Region.data_bytes next_power_of_two SizeClass.log_bytes SizeClass.bytes
    SuperBlock.free_cell
freed-group = refl

listed_there : has 262144 (two_lists (group (two.1 262144))) ≡ true
unfolding put new BlockList.put_cache EmptyClass.put EmptyClass.push_front EmptyClass.set_prev
    EmptyClass.is_block BlockList.inc_used_bytes BlockList.inc_total_bytes EmptyClass.new group
    cell_space Region.data_bytes next_power_of_two SizeClass.log_bytes
listed_there = refl

free_cell-IsBlockList_example :
    let (l', m', memory') = free_cell two.0 two.1 zeros 262208 262144 2 in
    IsBlockList l' m' (after_free two.0 two.1 two_lists zeros 262208 262144) (524288 ∷ 262144 ∷ [])
    × CellFreed two.0 two.1 two_lists
        (524288 ∷ 262144 ∷ [])
        two-IsBlockList
        zeros
        262208
        262144
        refl
        (omega (arith, cell_size, two_block))
        (omega (arith, two_block))
        (l', m', memory')
free_cell-IsBlockList_example =
    free_cell-IsBlockList two.0 two.1 two_lists (524288 ∷ 262144 ∷ []) two-IsBlockList zeros 262208
      262144 refl (omega (arith, cell_size, two_block)) (omega (arith, two_block)) 2
      (class_size ∙ sym cell_size)
      (subst (λ (n : ℕ). n < group_count) (sym freed-group) (omega arith)) (inr listed_there)
