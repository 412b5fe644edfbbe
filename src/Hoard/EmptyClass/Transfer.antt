-- ===== src/Hoard/EmptyClass/Transfer.antt =====
-- Moving a block to another group: `transfer`, and `free_cell`, which does so when the block gets emptier.
use malloc_kit.Base.{
  ℕ, ◌<◌, ◌≡◌, ◌≢◌, ◌⊎◌, ◌↔◌, inl, inr, refl, sym, ap, ◌∙◌, arith, subst, Bool, true, false, not,
  ◌&&◌, ◌==◌, Bool-cases, ==→eq, ==→ne, eq→==, if◌then◌else◌, none, List, ◌∷◌, get_or,
}
use malloc_kit.Address.{Address}
use malloc_kit.Chain.{Memory, has}
use malloc_kit.Linked.{erase}
use malloc_kit.Linked.Laws.{head-has, frame, has-erase}
use malloc_kit.Hoard.SuperBlock
use malloc_kit.Hoard.EmptyClass
use malloc_kit.Hoard.EmptyClass.{
  EmptyClass, Metas, is_block, update, group, group_count, push_front, transfer, free_cell,
}
use malloc_kit.Hoard.EmptyClass.Links.{is_block-cases, prev_of, next_of}
use malloc_kit.Hoard.EmptyClass.Lists.{Lists, with_list, IsClass, apart, push_front-IsClass}
use malloc_kit.Hoard.EmptyClass.Moves.{Listed, added-Listed}
use malloc_kit.Hoard.EmptyClass.Take.{take_lem, unlink-out}

-- The lists when block `b` went from one group to another.
abbrev pub transferred : Lists → Address → (oldg newg : ℕ) → Lists
transferred lists b oldg newg =
    let left = with_list lists oldg (erase b (lists oldg)) in
    if newg == oldg then lists else with_list left newg (b ∷ lists newg)

module _ (groups : EmptyClass) (m : Metas) (lists : Lists) (v : IsClass groups m lists)
    (b oldg newg : ℕ) (small : oldg < group_count) (small' : newg < group_count)
    (there : has b (lists oldg) ≡ true) where
  abbrev pub left : Lists
  left = with_list lists oldg (erase b (lists oldg))

  pub gone : (h : ℕ) → h < group_count → has b (left h) ≡ false
  gone h low = elim (Bool-cases (h == oldg)) [
    | inl same ↦
        rw same (has-erase b b (lists oldg) (v.distinct oldg small) ∙ itself (has b (lists oldg)))
    | inr other ↦
        rw other (apart groups m lists v oldg h b small low (λ e. ==→ne h oldg other (sym e)) there)
  ]
    where
      itself : (inside : Bool) → (inside && not (b == b)) ≡ false
      itself inside = ground arith

  -- What is listed without the block.
  pub erased-Listed : (a : Address) → Listed left a ↔ (Listed lists a × (a ≢ b))
  unfolding Listed
  erased-Listed a = (
    (λ (h, low, inside). (
      (h, low, still h low (Bool-cases (h == oldg)) inside),
      (λ same. cc (gone h low, ap (λ (x : Address). has x (left h)) (sym same) ∙ inside)),
    )),
    (λ ((h, low, inside), ne). (h, low, stays h low ne (Bool-cases (h == oldg)) inside)),
  )
    where
      erased : has a (erase b (lists oldg)) ≡ (has a (lists oldg) && not (a == b))
      erased = has-erase a b (lists oldg) (v.distinct oldg small)

      from_erased : has a (erase b (lists oldg)) ≡ true → has a (lists oldg) ≡ true
      from_erased inside = ground (arith, erased, inside)

      to_erased : a ≢ b → has a (lists oldg) ≡ true → has a (erase b (lists oldg)) ≡ true
      to_erased ne inside = ground (arith, erased, inside, ne)

      still :
          (h : ℕ)
          → h < group_count
          → (h == oldg ≡ true) ⊎ (h == oldg ≡ false)
          → has a (left h) ≡ true
          → has a (lists h) ≡ true
      still h low (inl same) inside =
          ap (λ (i : ℕ). has a (lists i)) (==→eq h oldg same) ∙ from_erased (rw same at inside)
      still h low (inr other) inside = (rw other at inside)

      stays :
          (h : ℕ)
          → h < group_count
          → a ≢ b
          → (h == oldg ≡ true) ⊎ (h == oldg ≡ false)
          → has a (lists h) ≡ true
          → has a (left h) ≡ true
      stays h low ne (inl same) inside =
          rw same
            (to_erased ne (ap (λ (i : ℕ). has a (lists i)) (sym (==→eq h oldg same)) ∙ inside))
      stays h low ne (inr other) inside = rw other inside

  not_head : newg ≢ oldg → is_block (get_or groups newg none) b ≡ false
  not_head ne = elim (is_block-cases (get_or groups newg none) b) [
    | inl same ↦ cc (
      head-has (prev_of m) (next_of m) (lists newg) none (get_or groups newg none) b
          (v.linked newg small') same.0,
      apart groups m lists v oldg newg b small small' (λ e. ne (sym e)) there,
    )
    | inr other ↦ other.1
  ]

  abbrev unlinked : EmptyClass × Metas
  unlinked = EmptyClass.unlink groups m b oldg

  abbrev pushed : EmptyClass × Metas
  pushed = push_front unlinked.0 unlinked.1 b newg

  taken : IsClass unlinked.0 unlinked.1 left
  taken =
      take_lem groups m lists v b oldg small there unlinked.0 unlinked.1
        (unlink-out groups m lists v b oldg small there)

  left_new : (newg == oldg) ≡ false → left newg ≡ lists newg
  left_new other = rw other refl

  -- A transfer takes the block out of its old group and puts it in front of the new one.
  pub transfer-IsClass :
      let (groups', m') = transfer groups m b oldg newg in
      IsClass groups' m' (transferred lists b oldg newg)
  unfolding transfer
  transfer-IsClass = elim (Bool-cases (newg == oldg)) [
    | inl same ↦ elim (Bool-cases (is_block (get_or groups newg none) b)) [
      | inl first ↦ rw (first, same) v
      | inr later ↦ rw (later, same) v
    ]
    | inr other ↦
        rw (not_head (==→ne newg oldg other), other)
          (subst (λ (us : List Address). IsClass pushed.0 pushed.1 (with_list left newg (b ∷ us)))
            (left_new other)
            (push_front-IsClass unlinked.0 unlinked.1 left taken b newg small' gone))
  ]

  -- The same blocks are listed.
  pub transferred-Listed : (a : Address) → Listed lists a ↔ Listed (transferred lists b oldg newg) a
  unfolding Listed
  transferred-Listed a = elim (Bool-cases (newg == oldg)) [
    | inl same ↦ rw same ((λ l. l), (λ l. l))
    | inr other ↦ rw other (
        subst (λ (us : List Address). Listed lists a ↔ Listed (with_list left newg (b ∷ us)) a)
          (left_new other) (moved (erased-Listed a) (added-Listed left newg b small' a)))
  ]
    where
      moved :
          {rest final : Type 0}
          → rest ↔ (Listed lists a × (a ≢ b))
          → ((a ≡ b) ⊎ rest) ↔ final
          → Listed lists a ↔ final
      moved (forth, back) (grown, shrunk) = (
        (λ listed. elim (Bool-cases (a == b)) [
          | inl same ↦ grown (inl (==→eq a b same))
          | inr other ↦ grown (inr (back (listed, ==→ne a b other)))
        ]),
        (λ last. elim (shrunk last) [
          | inl same ↦ (oldg, small, ap (λ (x : Address). has x (lists oldg)) same ∙ there)
          | inr kept ↦ (forth kept).0
        ]),
      )

-- Writing the fields of a block that are not its links and its mark keeps the lists.
update-IsClass :
    (groups : EmptyClass) (m : Metas) (lists : Lists) (b : Address) (meta : SuperBlock.BlockMeta)
    → meta.prev ≡ (m b).prev
    → meta.next ≡ (m b).next
    → meta.group ≡ (m b).group
    → IsClass groups m lists
    → IsClass groups (update m b meta) lists
update-IsClass groups m lists b meta same_prev same_next same_group v = record {
  whole = v.whole;
  linked = λ g low.
      frame (prev_of m) (next_of m) (prev_of (update m b meta)) (next_of (update m b meta))
        (lists g) none (get_or groups g none)
        (λ a inside. kept (λ (x : SuperBlock.BlockMeta). x.prev) same_prev a)
        (λ a inside. kept (λ (x : SuperBlock.BlockMeta). x.next) same_next a) (v.linked g low);
  distinct = v.distinct;
  grouped = λ g a low inside.
      kept (λ (x : SuperBlock.BlockMeta). x.group) same_group a ∙ v.grouped g a low inside;
}
  where
    kept :
        {A : Type 0} (field : SuperBlock.BlockMeta → A)
        → field meta ≡ field (m b)
        → (a : Address) → field (update m b meta a) ≡ field (m a)
    kept field same a = elim (Bool-cases (a == b)) [
      | inl here ↦ rw here (same ∙ ap (λ (x : Address). field (m x)) (sym (==→eq a b here)))
      | inr other ↦ rw other refl
    ]

pub freed-IsClass :
    (groups : EmptyClass) (m : Metas) (memory : Memory) (lists : Lists) (a b : Address)
    → IsClass groups m lists
    → IsClass groups (update m b (SuperBlock.free_cell memory (m b) a).1) lists
unfolding SuperBlock.free_cell
freed-IsClass groups m memory lists a b v =
    update-IsClass groups m lists b (SuperBlock.free_cell memory (m b) a).1 refl refl refl v

-- Freeing a cell of a block that is listed in the group of its fullness moves the block to the group of its new fullness, when both
-- groups are in range, and the lists are kept.
pub free_cell-IsClass :
    (groups : EmptyClass) (m : Metas) (memory : Memory) (lists : Lists) (a b : Address)
    → IsClass groups m lists
    → group (m b) < group_count
    → group (SuperBlock.free_cell memory (m b) a).1 < group_count
    → has b (lists (group (m b))) ≡ true
    → let (groups', m', memory') = free_cell groups m memory a b in
      IsClass groups' m'
        (transferred lists b (group (m b)) (group (SuperBlock.free_cell memory (m b) a).1))
unfolding free_cell
free_cell-IsClass groups m memory lists a b v small small' there =
    let oldg = group (m b) in
    let meta = (SuperBlock.free_cell memory (m b) a).1 in
    let newg = group meta in
    let written : IsClass groups (update m b meta) lists =
      freed-IsClass groups m memory lists a b v in
    elim (Bool-cases (oldg == newg)) [
      | inl same ↦ rw (same, eq→== newg oldg (sym (==→eq oldg newg same))) written
      | inr other ↦
          rw other
            (transfer-IsClass groups (update m b meta) lists written b oldg newg small small' there)
    ]
