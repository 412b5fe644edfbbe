-- ===== src/Hoard/EmptyClass/Tests.antt =====
-- Blocks of cells of 64 bytes, of which one is in use.
use malloc_kit.Base.{
  ℕ, next_power_of_two, ◌≡◌, ◌≤◌, ◌<◌, ◌↔◌, inl, inr, Bool-cases, ◌==◌, true, arith, refl, none,
  some, subst, sym, List, [], ◌∷◌,
}
use malloc_kit.Address.{Address}
use malloc_kit.Chain.{has}
use malloc_kit.Hoard.EmptyClass.Lists.{Lists, with_list, IsClass, put-IsClass, new-IsClass}
use malloc_kit.Hoard.EmptyClass.Moves.{Listed, put-full}
use malloc_kit.Hoard.EmptyClass.Search.{Enough, InRange, Searched, pop_most_empty_block_lem}
use malloc_kit.SizeClass
use malloc_kit.Region
use malloc_kit.Hoard.SuperBlock
use malloc_kit.Hoard.EmptyClass
use malloc_kit.Hoard.EmptyClass.{EmptyClass, Metas, group, group_count, cell_space, data_bytes}
use malloc_kit.Hoard.EmptyClass.Laws.{group_lem}

abbrev used_block : SuperBlock.BlockMeta
used_block = record {
  bump_cursor = 128;
  used_bytes = 64;
  prev = none;
  next = none;
  size_class = 2;
  group = 0;
  head_cell = 0;
  owner = 0;
}

used_block-space : cell_space used_block ≡ 262080
unfolding cell_space Region.data_bytes next_power_of_two SizeClass.log_bytes
used_block-space = refl

group_example :
    (group used_block < group_count)
    × ((group used_block ≡ 0) ↔ (used_block.used_bytes ≡ 0))
    × ((group used_block ≡ 9) ↔ (used_block.used_bytes ≡ cell_space used_block))
group_example =
    group_lem used_block (subst (λ (n : ℕ). 1 ≤ n) (sym used_block-space) (omega arith))
      (subst (λ (n : ℕ). 64 ≤ n) (sym used_block-space) (omega arith))

-- Two blocks are put into the lists and are popped again, the emptier one first.
abbrev metas : Metas
metas a = used_block

popped_again :
    let (groups, m) = EmptyClass.put EmptyClass.new metas 262144 in
    let (groups', m') = EmptyClass.put groups m 524288 in
    (EmptyClass.pop_most_empty_block 3 groups' m').0 ≡ some 524288
unfolding EmptyClass.put EmptyClass.new EmptyClass.pop_most_empty_block EmptyClass.pop_groups
    EmptyClass.pop_group EmptyClass.pop EmptyClass.push_front EmptyClass.set_prev group cell_space
    Region.data_bytes next_power_of_two SizeClass.log_bytes
popped_again = refl

-- The lists before any block is put, and after the block at 256 KiB was put into group 1.
abbrev no_lists : Lists
no_lists g = []

used_group : (a : ℕ) → group (metas a) ≡ 1
unfolding group cell_space Region.data_bytes next_power_of_two SizeClass.log_bytes
used_group a = refl

small_group : (a : Address) → group (metas a) < group_count
small_group a = subst (λ (n : ℕ). n < group_count) (sym (used_group a)) (omega arith)

abbrev one_block : EmptyClass × Metas
one_block = EmptyClass.put EmptyClass.new metas 262144

abbrev one_list : Lists
one_list = with_list no_lists 1 (262144 ∷ [])

one_block-IsClass : IsClass one_block.0 one_block.1 one_list
one_block-IsClass =
    subst (λ (n : ℕ). IsClass one_block.0 one_block.1 (with_list no_lists n (262144 ∷ [])))
      (used_group 262144)
      (put-IsClass EmptyClass.new metas no_lists 262144 (new-IsClass metas) (small_group 262144)
        (λ h low. refl))

one_list-only : (a : Address) (h : ℕ) → has a (one_list h) ≡ true → a ≡ 262144
one_list-only a h inside = elim (Bool-cases (h == 1)) [
  | inl same ↦ in_list (rw same at inside)
  | inr other ↦ absurd (nowhere (rw other at inside))
]
  where
    in_list : has a (262144 ∷ []) ≡ true → a ≡ 262144
    in_list e = ground (arith, e)

    nowhere : has a [] ≡ true → ⊥
    nowhere e = ground (arith, e)

one_block-InRange_at : (a : Address) → group (one_block.1 a) < group_count
one_block-InRange_at a =
    subst (λ (n : ℕ). n < group_count) (sym (put-full EmptyClass.new metas 262144 a))
      (small_group a)

one_block-InRange : InRange one_block.1
unfolding InRange
one_block-InRange a = one_block-InRange_at a

one_block-Enough : Enough 2 one_list
unfolding Enough Listed
one_block-Enough [] distinct listed = omega arith
one_block-Enough (a ∷ []) distinct listed = omega arith
one_block-Enough (a ∷ a' ∷ us) distinct listed =
    absurd (twice (both a (self a (a' ∷ us))) (both a' (later a a' us)))
  where
    self : (x : Address) (xs : List Address) → has x (x ∷ xs) ≡ true
    self x xs = ground arith

    later : (x y : Address) (xs : List Address) → has y (x ∷ y ∷ xs) ≡ true
    later x y xs = ground arith

    both : (x : Address) → has x (a ∷ a' ∷ us) ≡ true → x ≡ 262144
    both x inside = let (h, low, there) = listed x inside in one_list-only x h there

    twice : a ≡ 262144 → a' ≡ 262144 → ⊥
    twice e e' = ground (arith, distinct.0, e, e')

pop_most_empty_block_example :
    Searched 0 9 one_block.1 one_list (EmptyClass.pop_most_empty_block 2 one_block.0 one_block.1)
pop_most_empty_block_example =
    pop_most_empty_block_lem 2 one_block.0 one_block.1 one_list one_block-IsClass one_block-InRange
      one_block-Enough
