-- ===== src/Hoard/EmptyClass/Moves.antt =====
-- What popping a block and putting it into another group do to the set of the listed blocks.
use malloc_kit.Base.{
  ℕ, ◌<◌, ◌≡◌, ◌≢◌, ◌↔◌, ◌⊎◌, inl, inr, refl, sym, ap, ◌∙◌, arith, subst, true, false, ◌==◌,
  Bool-cases, ==→eq, ==→ne, eq→==, ne→==, Option, none, some, List, ◌∷◌, get_or, set,
}
use malloc_kit.Address.{Address}
use malloc_kit.Chain.{has, Distinct}
use malloc_kit.Hoard.EmptyClass.{
  EmptyClass, Metas, group, group_count, cell_space, set_prev, set_next, remove, unlink, push_front,
  put, pop,
}
use malloc_kit.Hoard.EmptyClass.Lists.{Lists, with_list, IsClass, apart}

-- A block is in some group.
unfoldable pub Listed : Lists → Address → Type 0
Listed lists a = (g : ℕ) × (g < group_count) × (has a (lists g) ≡ true)

set_prev-full :
    (m : Metas) (p q : Option Address) (a : Address) → group (set_prev m p q a) ≡ group (m a)
unfolding set_prev group cell_space
set_prev-full m none q a = refl
set_prev-full m (some p) q a = elim (Bool-cases (a == p)) [
  | inl same ↦ rw same (ap (λ (x : Address). group (m x)) (sym (==→eq a p same)))
  | inr other ↦ rw other refl
]

set_next-full :
    (m : Metas) (p q : Option Address) (a : Address) → group (set_next m p q a) ≡ group (m a)
unfolding set_next group cell_space
set_next-full m none q a = refl
set_next-full m (some p) q a = elim (Bool-cases (a == p)) [
  | inl same ↦ rw same (ap (λ (x : Address). group (m x)) (sym (==→eq a p same)))
  | inr other ↦ rw other refl
]

pub remove-full :
    (groups : EmptyClass) (m : Metas) (b a : Address)
    → group ((remove groups m b).1 a) ≡ group (m a)
unfolding remove unlink
remove-full groups m b a = set_prev-full _ _ _ a ∙ set_next-full m (m b).prev (m b).next a

pub put-full :
    (groups : EmptyClass) (m : Metas) (b a : Address) → group ((put groups m b).1 a) ≡ group (m a)
unfolding put push_front group cell_space
put-full groups m b a = set_prev-full _ _ _ a ∙ elim (Bool-cases (a == b)) [
  | inl same ↦ rw same (ap (λ (x : Address). group (m x)) (sym (==→eq a b same)))
  | inr other ↦ rw other refl
]

-- Taking the head of one list out.
module _ (lists : Lists) (g : ℕ) (b : Address) (rest : List Address)
    (list : lists g ≡ b ∷ rest) where
  shrink : (a h : ℕ) → has a (with_list lists g rest h) ≡ true → has a (lists h) ≡ true
  shrink a h inside = elim (Bool-cases (h == g)) [
    | inl same ↦ rw (==→eq h g same, list) (in_tail (rw same at inside))
    | inr other ↦ (rw other at inside)
  ]
    where
      in_tail : has a rest ≡ true → has a (b ∷ rest) ≡ true
      in_tail h = ground (arith, h)

  keep : (a h : ℕ) → a ≢ b → has a (lists h) ≡ true → has a (with_list lists g rest h) ≡ true
  keep a h ne inside = elim (Bool-cases (h == g)) [
    | inl same ↦ rw same (from_tail (ap (has a) (sym (ap lists (==→eq h g same) ∙ list)) ∙ inside))
    | inr other ↦ rw other inside
  ]
    where
      from_tail : has a (b ∷ rest) ≡ true → has a rest ≡ true
      from_tail h = ground (arith, h, ne)

-- Putting a block in front of one list.
module _ (lists : Lists) (p : ℕ) (b : Address) where
  grow : (a h : ℕ) → has a (lists h) ≡ true → has a (with_list lists p (b ∷ lists p) h) ≡ true
  grow a h inside = elim (Bool-cases (h == p)) [
    | inl same ↦ rw same (in_tail (ap (λ (i : ℕ). has a (lists i)) (sym (==→eq h p same)) ∙ inside))
    | inr other ↦ rw other inside
  ]
    where
      in_tail : has a (lists p) ≡ true → has a (b ∷ lists p) ≡ true
      in_tail h = ground (arith, h)

  grown_self : has b (with_list lists p (b ∷ lists p) p) ≡ true
  grown_self = rw (eq→== p p refl) (rw (eq→== b b refl) refl)

  grown :
      (a h : ℕ) → a ≢ b → has a (with_list lists p (b ∷ lists p) h) ≡ true → has a (lists h) ≡ true
  grown a h ne inside = elim (Bool-cases (h == p)) [
    | inl same ↦ ap (λ (i : ℕ). has a (lists i)) (==→eq h p same) ∙ from_tail (rw same at inside)
    | inr other ↦ (rw other at inside)
  ]
    where
      from_tail : has a (b ∷ lists p) ≡ true → has a (lists p) ≡ true
      from_tail h = ground (arith, h, ne)

  -- The block is listed now, and no other block is that was not.
  pub added-Listed :
      p < group_count
      → (a : Address) → ((a ≡ b) ⊎ Listed lists a) ↔ Listed (with_list lists p (b ∷ lists p)) a
  unfolding Listed
  added-Listed low a = (
    (λ x. elim x [
      | inl same ↦ (
        p,
        low,
        subst (λ (y : Address). has y (with_list lists p (b ∷ lists p) p) ≡ true) (sym same)
            grown_self,
      )
      | inr listed ↦ (listed.0, listed.1, grow a listed.0 listed.2)
    ]),
    (λ listed. elim (Bool-cases (a == b)) [
      | inl same ↦ inl (==→eq a b same)
      | inr other ↦ inr (listed.0, listed.1, grown a listed.0 (==→ne a b other) listed.2)
    ]),
  )

pub pop-full :
    (groups : EmptyClass) (m : Metas) (g : ℕ) (a : Address)
    → group ((pop groups m g).2 a) ≡ group (m a)
unfolding pop
pop-full groups m g a = by_head (get_or groups g none)
  where
    by_head :
        (o : Option Address)
        → group (
            (elim o as (λ _. Option Address × EmptyClass × Metas) [
              | none ↦ (none, groups, m)
              | some block ↦
                  (some block, set groups g (m block).next, set_prev m (m block).next none)
            ]).2
              a)
          ≡ group (m a)
    by_head none = refl
    by_head (some b) = set_prev-full m (m b).next none a

-- The head of group `i` was popped.
module _ (groups : EmptyClass) (m : Metas) (lists : Lists) (v : IsClass groups m lists) (i : ℕ)
    (small : i < group_count) (b : Address) (rest : List Address) (list : lists i ≡ b ∷ rest) where
  abbrev pub left : Lists
  left = with_list lists i rest

  pub was_listed : has b (lists i) ≡ true
  was_listed = ap (has b) list ∙ self_in
    where
      self_in : has b (b ∷ rest) ≡ true
      self_in = ground arith

  pub gone : (h : ℕ) → h < group_count → has b (left h) ≡ false
  gone h low = elim (Bool-cases (h == i)) [
    | inl same ↦ rw same (subst Distinct list (v.distinct i small)).0
    | inr other ↦
        rw other (apart groups m lists v i h b small low (λ e. ==→ne h i other (sym e)) was_listed)
  ]

  pub same_others : (a : Address) → a ≢ b → Listed lists a ↔ Listed left a
  unfolding Listed
  same_others a ne = (
    (λ (h, low, inside). (h, low, keep lists i b rest list a h ne inside)),
    (λ (h, low, inside). (h, low, shrink lists i b rest list a h inside)),
  )

  -- It goes to a group `p` that is further on.
  module _ (p : ℕ) (up : i < p) (low : p < group_count) where
    abbrev pub moved : Lists
    moved = with_list left p (b ∷ left p)

    pub moved_below : (h : ℕ) → h < i → moved h ≡ lists h
    moved_below h lower =
        rw (ne→== h p (λ e. omega (arith, e, lower, up)), ne→== h i (λ e. omega (arith, e, lower)))
          refl

    pub moved_here : moved i ≡ rest
    moved_here = rw (ne→== i p (λ e. omega (arith, e, up)), eq→== i i refl) refl

    pub same_all : (a : Address) → Listed lists a ↔ Listed moved a
    unfolding Listed
    same_all a = elim (Bool-cases (a == b)) [
      | inl same ↦ (
        (λ _. (
          p,
          low,
          subst (λ (x : Address). has x (moved p) ≡ true) (sym (==→eq a b same))
              (grown_self left p b),
        )),
        (λ _. (
          i,
          small,
          subst (λ (x : Address). has x (lists i) ≡ true) (sym (==→eq a b same)) was_listed,
        )),
      )
      | inr other ↦ (
        (λ (h, below, inside).
            (h, below, grow left p b a h (keep lists i b rest list a h (==→ne a b other) inside))),
        (λ (h, below, inside). (
          h,
          below,
          shrink lists i b rest list a h (grown left p b a h (==→ne a b other) inside),
        )),
      )
    ]
