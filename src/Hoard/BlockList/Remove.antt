-- ===== src/Hoard/BlockList/Remove.antt =====
-- `remove` of a block.
use malloc_kit.Base.{
  ℕ, ◌+◌, ◌^◌, ◌<◌, ◌≡◌, ◌≢◌, ◌⊎◌, ◌↔◌, inl, inr, sym, ap, ◌∙◌, arith, subst, Bool, true, false,
  not, ◌&&◌, ◌==◌, Bool-cases, if◌then◌else◌, none, some, List, wrapping_sub,
}
use malloc_kit.Address.{Address}
use malloc_kit.Chain.{has}
use malloc_kit.Linked.{erase}
use malloc_kit.Linked.Laws.{some-inj, has-erase, Distinct-erase}
use malloc_kit.Hoard.EmptyClass
use malloc_kit.Hoard.EmptyClass.{EmptyClass, Metas, is_block, group, group_count, data_bytes}
use malloc_kit.Hoard.EmptyClass.Lists.{Lists, with_list}
use malloc_kit.Hoard.EmptyClass.Links.{is_block-cases}
use malloc_kit.Hoard.EmptyClass.Moves.{Listed, remove-full}
use malloc_kit.Hoard.EmptyClass.Take.{remove-IsClass}
use malloc_kit.Hoard.EmptyClass.Transfer.{erased-Listed}
use malloc_kit.Hoard.EmptyClass.Used.{remove-used}
use malloc_kit.Hoard.BlockList.{BlockList, remove, dec_used_bytes, dec_total_bytes}
use malloc_kit.Hoard.BlockList.Invariant.{
  sum, sum-same, sum-erase, less_counted, used, room, Member, IsBlockList,
}

-- The lists without a block that is listed.
abbrev pub without : BlockList → Metas → Lists → Address → Lists
without l m lists b =
    if is_block l.cache b then lists else with_list lists (m b).group (erase b (lists (m b).group))

module _ (l : BlockList) (m : Metas) (lists : Lists) (blocks : List Address)
    (v : IsBlockList l m lists blocks) (b : Address) (there : has b blocks ≡ true) where
  abbrev pub left : List Address
  left = erase b blocks

  pub has-left : (a : Address) → (has a left ≡ true) ↔ ((has a blocks ≡ true) × (a ≢ b))
  has-left a = by_erase (has a left) (has-erase a b blocks v.distinct)
    where
      by_erase :
          (x : Bool)
          → x ≡ (has a blocks && not (a == b))
          → (x ≡ true) ↔ ((has a blocks ≡ true) × (a ≢ b))
      by_erase x e = (
        (λ h. (ground (arith, e, h), (λ same. ground (arith, e, h, same)))),
        (λ (h, ne). ground (arith, e, h, ne)),
      )

  pub room-left : sum room blocks ≡ room b + sum room left
  room-left = sum-erase room b blocks there

  pub used_left : sum (used m) blocks ≡ used m b + sum (used m) left
  used_left = sum-erase (used m) b blocks there

  pub total_left : wrapping_sub l.total_bytes data_bytes ≡ sum room left
  total_left =
      less_counted l.total_bytes (room b) (sum room left) (v.total ∙ room-left)
        (subst (λ (n : ℕ). n < 2 ^ 64) room-left v.total_fits)

  pub in_use_left : wrapping_sub l.used_bytes (used m b) ≡ sum (used m) left
  in_use_left =
      less_counted l.used_bytes (used m b) (sum (used m) left) (v.in_use ∙ used_left)
        (subst (λ (n : ℕ). n < 2 ^ 64) used_left v.in_use_fits)

  -- The cache is removed.
  module _ (cached : l.cache ≡ some b) where
    pub cached_members : (a : Address) → (has a left ≡ true) ↔ ((none ≡ some a) ⊎ Listed lists a)
    unfolding Member Listed
    cached_members a = (
      (λ inside.
          let (before, ne) = (has-left a).0 inside in
          elim ((v.members a).0 before) [
            | inl first ↦ absurd (ne (some-inj a b (sym first ∙ cached)))
            | inr listed ↦ inr listed
          ]),
      (λ x. elim x [
        | inl first ↦ cc
        | inr listed ↦ (has-left a).1 (
          (v.members a).1 (inr listed),
          (λ same. cc (
            v.cache_out b listed.0 cached listed.1,
            ap (λ (y : Address). has y (lists listed.0)) (sym same) ∙ listed.2,
          )),
        )
      ]),
    )

  -- A listed block is removed.
  module _ (other : l.cache ≢ some b) where
    abbrev g : ℕ
    g = (m b).group

    listed_here : (g < group_count) × (has b (lists g) ≡ true)
    unfolding Member Listed
    listed_here = elim ((v.members b).0 there) [
      | inl first ↦ absurd (other first)
      | inr (h, low, inside) ↦
          subst (λ (i : ℕ). (i < group_count) × (has b (lists i) ≡ true))
            (sym (v.class.grouped h b low inside)) (low, inside)
    ]

    abbrev lists' : Lists
    lists' = with_list lists g (erase b (lists g))

    Listed-members : (a : Address) → (has a left ≡ true) ↔ ((l.cache ≡ some a) ⊎ Listed lists' a)
    unfolding Member
    Listed-members a =
        let (forth, back) =
          erased-Listed l.groups m lists v.class b g g listed_here.0 listed_here.0 listed_here.1
            a in
        (
          (λ inside.
              let (before, ne) = (has-left a).0 inside in
              elim ((v.members a).0 before) [
                | inl first ↦ inl first
                | inr listed ↦ inr (back (listed, ne))
              ]),
          (λ x. elim x [
            | inl first ↦
                (has-left a).1 ((v.members a).1 (inl first), (λ same. other (first ∙ ap some same)))
            | inr listed ↦ (has-left a).1 ((v.members a).1 (inr (forth listed).0), (forth listed).1)
          ]),
        )

    listed_out : (c h : ℕ) → l.cache ≡ some c → h < group_count → has c (lists' h) ≡ false
    unfolding Listed
    listed_out c h e low = elim (Bool-cases (has c (lists' h))) [
      | inl inside ↦
          let ((h', low', before), ne) =
            (erased-Listed l.groups m lists v.class b g g listed_here.0 listed_here.0 listed_here.1
                c).0
              (h, low, inside) in
          cc (v.cache_out c h' e low', before)
      | inr absent ↦ absent
    ]

  -- A block of the list that is removed is neither the cache nor listed afterwards, all others are as before, and the counts are those of
  -- one block less.
  pub remove-IsBlockList :
      let (l', m') = remove l m b in IsBlockList l' m' (without l m lists b) left
  unfolding remove dec_used_bytes dec_total_bytes Member
  remove-IsBlockList = elim (is_block-cases l.cache b) [
    | inl same ↦ rw same.1 (record {
      class = v.class;
      in_range = v.in_range;
      distinct = Distinct-erase b blocks v.distinct;
      members = cached_members same.0;
      cache_out = λ c h e low. cc;
      total = total_left;
      total_fits = omega (arith, room-left, v.total_fits);
      in_use = in_use_left;
      in_use_fits = omega (arith, used_left, v.in_use_fits);
    })
    | inr other ↦
        let m' : Metas = (EmptyClass.remove l.groups m b).1 in
        let kept : (a : Address) → used m' a ≡ used m a = remove-used l.groups m b in
        let here = listed_here other.0 in
        rw other.1 (record {
          class = remove-IsClass l.groups m lists b v.class here.0 here.1;
          in_range = λ a.
              subst (λ (n : ℕ). n < group_count) (sym (remove-full l.groups m b a)) (v.in_range a);
          distinct = Distinct-erase b blocks v.distinct;
          members = Listed-members other.0;
          cache_out = listed_out other.0;
          total = total_left;
          total_fits = omega (arith, room-left, v.total_fits);
          in_use = in_use_left ∙ sym (sum-same (used m') (used m) left kept);
          in_use_fits =
              subst (λ (n : ℕ). n < 2 ^ 64) (sym (sum-same (used m') (used m) left kept))
                (omega (arith, used_left, v.in_use_fits));
        })
  ]
