-- ===== src/Hoard/BlockList/Free.antt =====
-- `free_cell` of a block of the list.
use malloc_kit.Base.{
  ℕ, ◌+◌, ◌-◌, ◌%◌, ◌^◌, ◌≤◌, ◌<◌, ◌≡◌, ◌≢◌, ◌⊎◌, ◌↔◌, inl, inr, refl, sym, ap, ◌∙◌, arith, subst,
  Bool, true, false, ◌==◌, Bool-cases, eq→==, ne→==, if◌then◌else◌, Option, some, List, [], ◌∷◌,
  wrapping_sub,
}
use malloc_kit.Address.{Address}
use malloc_kit.SizeClass
use malloc_kit.Chain.{Memory, has, store}
use malloc_kit.Linked.{erase}
use malloc_kit.Hoard.SuperBlock
use malloc_kit.Hoard.EmptyClass
use malloc_kit.Hoard.EmptyClass.{
  EmptyClass, Metas, is_block, update, group, group_count, transfer, cell_space,
}
use malloc_kit.Hoard.EmptyClass.Lists.{Lists}
use malloc_kit.Hoard.EmptyClass.Links.{is_block-cases}
use malloc_kit.Hoard.EmptyClass.Moves.{Listed}
use malloc_kit.Hoard.EmptyClass.Transfer.{
  transferred, transferred-Listed, freed-IsClass, free_cell-IsClass,
}
use malloc_kit.Hoard.EmptyClass.Kept.{transfer-kept}
use malloc_kit.Hoard.BlockList.{BlockList, free_cell, dec_used_bytes}
use malloc_kit.Hoard.BlockList.Invariant.{
  sum, sum-same, sum-erase, less_counted, used, Member, IsBlockList,
}
use malloc_kit.Hoard.BlockList.Remove.{has-left}

-- The lists after a cell of a block was freed.
abbrev pub after_free : BlockList → Metas → Lists → Memory → (a b : Address) → Lists
after_free l m lists memory a b =
    if is_block l.cache b
    then lists
    else transferred lists b (group (m b)) (group (SuperBlock.free_cell memory (m b) a).1)

sum-same_on :
    (f g : Address → ℕ) (us : List Address)
    → ((a : Address) → has a us ≡ true → f a ≡ g a)
    → sum f us ≡ sum g us
sum-same_on f g [] same = refl
sum-same_on f g (u ∷ us) same =
    omega (
      arith,
      same u (ground arith),
      sum-same_on f g us (λ a inside. same a (ground (arith, inside))),
    )

module _ (l : BlockList) (m : Metas) (lists : Lists) (blocks : List Address)
    (v : IsBlockList l m lists blocks) (memory : Memory) (a b : Address)
    (there : has b blocks ≡ true) (in_use : SuperBlock.cell_bytes (m b) ≤ used m b)
    (small : used m b < 2 ^ 32) where
  abbrev meta : SuperBlock.BlockMeta
  meta = (SuperBlock.free_cell memory (m b) a).1

  abbrev freed : Metas
  freed = update m b meta

  meta-used : meta.used_bytes + SuperBlock.cell_bytes (m b) ≡ used m b
  unfolding SuperBlock.free_cell
  meta-used = by_size (SuperBlock.cell_bytes (m b)) (used m b) in_use small
    where
      by_size : (x n : ℕ) → x ≤ n → n < 2 ^ 32 → (n + 2 ^ 32 - x) % 2 ^ 32 + x ≡ n
      by_size x n le lt = omega (arith, le, lt)

  -- The sum falls by the size of the cell.
  sum-freed :
      (m' : Metas)
      → ((y : Address) → used m' y ≡ used freed y)
      → sum (used m) blocks ≡ SuperBlock.cell_bytes (m b) + sum (used m') blocks
  sum-freed m' kept = omega (
    arith,
    sum-erase (used m) b blocks there,
    sum-erase (used freed) b blocks there,
    sum-same (used m') (used freed) blocks kept,
    sum-same_on (used freed) (used m) (erase b blocks)
        (λ y inside. elsewhere y (ne→== y b ((has-left l m lists blocks v b there y).0 inside).1)),
    meta-used,
    here,
  )
    where
      here : used freed b ≡ meta.used_bytes
      here = ap (λ (x : Bool). (if x then meta else m b).used_bytes) (eq→== b b refl)

      elsewhere : (y : Address) → (y == b) ≡ false → used freed y ≡ used m y
      elsewhere y other = ap (λ (x : Bool). (if x then meta else m y).used_bytes) other

  freed_range : group meta < group_count → (y : Address) → group (freed y) < group_count
  freed_range low y = elim (Bool-cases (y == b)) [
    | inl same ↦ rw same low
    | inr other ↦ rw other (v.in_range y)
  ]

  abbrev groups_freed : EmptyClass × Metas × Memory
  groups_freed = EmptyClass.free_cell l.groups m memory a b

  -- The operation on the groups keeps what does not depend on the links and the mark.
  groups-kept :
      (f : SuperBlock.BlockMeta → ℕ)
      → ((x : SuperBlock.BlockMeta) (g : ℕ) (next prev : Option Address)
          → f (record x { group = g; next = next; prev = prev }) ≡ f x)
      → (y : Address) → f (groups_freed.1 y) ≡ f (freed y)
  unfolding EmptyClass.free_cell
  groups-kept f stable y = elim (Bool-cases (group (m b) == group meta)) [
    | inl same ↦ rw same refl
    | inr other ↦ rw other (transfer-kept f stable l.groups freed b (group (m b)) (group meta) y)
  ]

  group_stable :
      (x : SuperBlock.BlockMeta) (g : ℕ) (next prev : Option Address)
      → group (record x { group = g; next = next; prev = prev }) ≡ group x
  unfolding group cell_space
  group_stable x g next prev = refl

  cache_unlisted :
      (t : Lists) (c h : ℕ)
      → l.cache ≡ some c
      → h < group_count
      → (Listed t c → Listed lists c)
      → has c (t h) ≡ false
  unfolding Listed
  cache_unlisted t c h e less back = elim (Bool-cases (has c (t h))) [
    | inl inside ↦
        let (h', less', before) = back (h, less, inside) in cc (v.cache_out c h' e less', before)
    | inr absent ↦ absent
  ]

  -- What freeing leaves behind: the block has one cell less in use and the freed cell as the head of its free cells, whose link is
  -- written to it, and the list counts the bytes of one cell less.
  unfoldable pub CellFreed : BlockList × Metas × Memory → Type 0
  CellFreed (l', m', memory') =
      (used m' b + SuperBlock.cell_bytes (m b) ≡ used m b)
      × (l'.used_bytes + SuperBlock.cell_bytes (m b) ≡ l.used_bytes)
      × ((m' b).head_cell ≡ a)
      × (memory' ≡ store memory a (m b).head_cell)

  at_block : (f : SuperBlock.BlockMeta → ℕ) → f (freed b) ≡ f meta
  at_block f = ap (λ (x : Bool). f (if x then meta else m b)) (eq→== b b refl)

  freed-head : meta.head_cell ≡ a
  unfolding SuperBlock.free_cell
  freed-head = refl

  groups_freed-memory : groups_freed.2 ≡ store memory a (m b).head_cell
  unfolding EmptyClass.free_cell SuperBlock.free_cell
  groups_freed-memory = elim (Bool-cases (group (m b) == group meta)) [
    | inl same ↦ rw same refl
    | inr other ↦ rw other refl
  ]

  -- The count of the bytes in use, when a cell of the size `n` is discounted.
  used_less :
      (n : ℕ)
      → n ≡ SuperBlock.cell_bytes (m b)
      → wrapping_sub l.used_bytes n + SuperBlock.cell_bytes (m b) ≡ l.used_bytes
  used_less n own =
      by_sum l.used_bytes (SuperBlock.cell_bytes (m b)) (sum (used freed) blocks) n own
        (v.in_use ∙ sum-freed freed (λ y. refl))
        (subst (λ (n : ℕ). n < 2 ^ 64) (sum-freed freed (λ y. refl)) v.in_use_fits)
    where
      by_sum : (u c s n : ℕ) → n ≡ c → u ≡ c + s → c + s < 2 ^ 64 → wrapping_sub u n + c ≡ u
      by_sum u c s n own e fits = omega (arith, own, e, fits)

  -- The state after the block was taken from a group to another, or was the cache.
  free_cell-CellFreed :
      (size_class : ℕ)
      → SizeClass.bytes SuperBlock.log_coverage size_class ≡ SuperBlock.cell_bytes (m b)
      → CellFreed (free_cell l m memory a b size_class)
  unfolding free_cell dec_used_bytes CellFreed SuperBlock.free_cell
  free_cell-CellFreed size_class own = elim (is_block-cases l.cache b) [
    | inl same ↦ rw same.1 (
      ap (λ (n : ℕ). n + SuperBlock.cell_bytes (m b))
            (at_block (λ (x : SuperBlock.BlockMeta). x.used_bytes))
          ∙ meta-used,
      used_less (SizeClass.bytes SuperBlock.log_coverage size_class) own,
      at_block (λ (x : SuperBlock.BlockMeta). x.head_cell) ∙ freed-head,
      refl,
    )
    | inr other ↦ rw other.1 (
      ap (λ (n : ℕ). n + SuperBlock.cell_bytes (m b))
            (groups-kept (λ (x : SuperBlock.BlockMeta). x.used_bytes) (λ x g next prev. refl) b
              ∙ at_block (λ (x : SuperBlock.BlockMeta). x.used_bytes))
          ∙ meta-used,
      used_less (SizeClass.bytes SuperBlock.log_coverage size_class) own,
      groups-kept (λ (x : SuperBlock.BlockMeta). x.head_cell) (λ x g next prev. refl) b
          ∙ at_block (λ (x : SuperBlock.BlockMeta). x.head_cell)
          ∙ freed-head,
      groups_freed-memory,
    )
  ]

  -- The invariant of the list after the cell was freed.
  lists_after :
      (size_class : ℕ)
      → SizeClass.bytes SuperBlock.log_coverage size_class ≡ SuperBlock.cell_bytes (m b)
      → group meta < group_count
      → (l.cache ≡ some b) ⊎ (has b (lists (group (m b))) ≡ true)
      → let (l', m', memory') = free_cell l m memory a b size_class in
        IsBlockList l' m' (after_free l m lists memory a b) blocks
  unfolding free_cell dec_used_bytes Member
  lists_after size_class own low place = elim (is_block-cases l.cache b) [
    | inl same ↦ rw same.1 (record {
      class = freed-IsClass l.groups m memory lists a b v.class;
      in_range = freed_range low;
      distinct = v.distinct;
      members = v.members;
      cache_out = v.cache_out;
      total = v.total;
      total_fits = v.total_fits;
      in_use = fewer freed (λ y. refl);
      in_use_fits = fits freed (λ y. refl);
    })
    | inr other ↦
        let listed : has b (lists (group (m b))) ≡ true = here other.0 in
        let same : (y : Address) → used groups_freed.1 y ≡ used freed y =
          groups-kept (λ (x : SuperBlock.BlockMeta). x.used_bytes) (λ x g next prev. refl) in
        let moved =
          transferred-Listed l.groups m lists v.class b (group (m b)) (group meta) (v.in_range b)
            low listed in
        rw other.1 (record {
          class = free_cell-IsClass l.groups m memory lists a b v.class (v.in_range b) low listed;
          in_range = λ y.
              subst (λ (n : ℕ). n < group_count) (sym (groups-kept group group_stable y))
                (freed_range low y);
          distinct = v.distinct;
          members = λ y. with_listed (v.members y) (moved y);
          cache_out = λ c h e less.
              cache_unlisted (transferred lists b (group (m b)) (group meta)) c h e less
                (moved c).1;
          total = v.total;
          total_fits = v.total_fits;
          in_use = fewer groups_freed.1 same;
          in_use_fits = fits groups_freed.1 same;
        })
  ]
    where
      fewer :
          (m' : Metas)
          → ((y : Address) → used m' y ≡ used freed y)
          → wrapping_sub l.used_bytes (SizeClass.bytes SuperBlock.log_coverage size_class)
            ≡ sum (used m') blocks
      fewer m' kept =
          ap (wrapping_sub l.used_bytes) own
          ∙ less_counted l.used_bytes (SuperBlock.cell_bytes (m b)) (sum (used m') blocks)
              (v.in_use ∙ sum-freed m' kept)
              (subst (λ (n : ℕ). n < 2 ^ 64) (sum-freed m' kept) v.in_use_fits)

      fits :
          (m' : Metas) → ((y : Address) → used m' y ≡ used freed y) → sum (used m') blocks < 2 ^ 64
      fits m' kept = omega (arith, sum-freed m' kept, v.in_use_fits)

      here : l.cache ≢ some b → has b (lists (group (m b))) ≡ true
      here ne = elim place [ inl first ↦ absurd (ne first) | inr listed ↦ listed ]

      with_listed : {p q r before : Type 0} → p ↔ (q ⊎ before) → before ↔ r → p ↔ (q ⊎ r)
      with_listed (forth, back) (to, from) = (
        (λ x. elim (forth x) [ inl first ↦ inl first | inr listed ↦ inr (to listed) ]),
        (λ y. elim y [ inl first ↦ back (inl first) | inr listed ↦ back (inr (from listed)) ]),
      )

  -- A cell in use of a block of the list is freed: the block stays in the list, in the group of its new fullness unless it is the
  -- cache; the bytes in use of the block and of the list fall by the size of the cell, the cell becomes the first free cell
  -- of the block, and memory changes only there, to the link. A block that is listed is to be in the group of its
  -- fullness before.
  pub free_cell-IsBlockList :
      (size_class : ℕ)
      → SizeClass.bytes SuperBlock.log_coverage size_class ≡ SuperBlock.cell_bytes (m b)
      → group meta < group_count
      → (l.cache ≡ some b) ⊎ (has b (lists (group (m b))) ≡ true)
      → let (l', m', memory') = free_cell l m memory a b size_class in
        IsBlockList l' m' (after_free l m lists memory a b) blocks × CellFreed (l', m', memory')
  free_cell-IsBlockList size_class own low place =
      (lists_after size_class own low place, free_cell-CellFreed size_class own)
