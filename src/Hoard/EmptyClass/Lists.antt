-- ===== src/Hoard/EmptyClass/Lists.antt =====
-- The groups of blocks are lists: each operation does to the linked blocks what its name says of the list.
use malloc_kit.Base.{
  ℕ, ◌<◌, ◌≡◌, ◌≢◌, inl, inr, refl, sym, ap, ◌∙◌, arith, subst, true, false, ◌==◌, Bool-cases,
  ==→eq, ==→ne, eq→==, ne→==, if◌then◌else◌, Option, none, some, List, [], ◌∷◌, get_or, length,
  length-set, length-replicate, get_or-replicate, get_or-set_self, get_or-set_ne,
}
use malloc_kit.Address.{Address}
use malloc_kit.Chain.{has, Distinct}
use malloc_kit.Linked.{Linked}
use malloc_kit.Linked.Laws.{has-apart, head-has, frame, rebase}
use malloc_kit.Hoard.EmptyClass.{EmptyClass, Metas, group, group_count, new, push_front, put}
use malloc_kit.Hoard.EmptyClass.Links.{
  prev_of, next_of, push-groups, push-next, push-group, push-prev_head, push-prev,
}

-- The blocks of each group.
abbrev pub Lists : Type 0
Lists = ℕ → List Address

abbrev pub with_list : Lists → ℕ → List Address → Lists
with_list lists g us h = if h == g then us else lists h

-- Each group's head leads through exactly the blocks of its list, forth and back, and they are marked with the group.
pub record IsClass (groups : EmptyClass) (m : Metas) (lists : Lists) : Type 0 where
  pub whole : length groups ≡ group_count
  pub linked :
      (g : ℕ)
      → g < group_count
      → Linked (prev_of m) (next_of m) none (get_or groups g none) (lists g)
  pub distinct : (g : ℕ) → g < group_count → Distinct (lists g)
  pub grouped : (g a : ℕ) → g < group_count → has a (lists g) ≡ true → (m a).group ≡ g

module _ (groups : EmptyClass) (m : Metas) (lists : Lists) (v : IsClass groups m lists) where
  -- A block is in one list.
  pub apart :
      (g h a : ℕ)
      → g < group_count
      → h < group_count
      → g ≢ h
      → has a (lists g) ≡ true
      → has a (lists h) ≡ false
  apart g h a small small' ne inside = elim (Bool-cases (has a (lists h))) [
    | inl both ↦ absurd (ne (sym (v.grouped g a small inside) ∙ v.grouped h a small' both))
    | inr out ↦ out
  ]

  module _ (b : Address) (g : ℕ) (small : g < group_count)
      (outside : (h : ℕ) → h < group_count → has b (lists h) ≡ false) where
    abbrev groups' : EmptyClass
    groups' = (push_front groups m b g).0

    abbrev m' : Metas
    m' = (push_front groups m b g).1

    abbrev head : Option Address
    head = get_or groups g none

    not_b : (h a : ℕ) → h < group_count → has a (lists h) ≡ true → (a == b) ≡ false
    not_b h a low inside = ne→== a b (has-apart a b (lists h) inside (outside h low))

    next_kept : (h a : ℕ) → h < group_count → has a (lists h) ≡ true → next_of m' a ≡ next_of m a
    next_kept h a low inside = push-next groups m b g a ∙ (rw (not_b h a low inside) refl)

    prev_kept :
        (h a : ℕ)
        → h < group_count
        → has a (lists h) ≡ true
        → head ≢ some a
        → prev_of m' a ≡ prev_of m a
    prev_kept h a low inside ne = push-prev groups m b g a ne ∙ (rw (not_b h a low inside) refl)

    head_inside : (a : ℕ) → head ≡ some a → has a (lists g) ≡ true
    head_inside a e = head-has (prev_of m) (next_of m) (lists g) none head a (v.linked g small) e

    linked_here : Linked (prev_of m') (next_of m') none (get_or groups' g none) (b ∷ lists g)
    linked_here = (
      ap (λ (gs : EmptyClass). get_or gs g none) (push-groups groups m b g)
          ∙ get_or-set_self groups g (some b) none (omega (arith, v.whole, small)),
      push-prev groups m b g b (λ e. cc (outside g small, head_inside b e))
          ∙ (rw (eq→== b b refl) refl),
      rw next_b (
          rebase (prev_of m) (next_of m) (prev_of m') (next_of m') (lists g) none (some b) head
            (v.distinct g small) (λ a inside. next_kept g a small inside)
            (λ a inside e. push-prev_head groups m b g a e)
            (λ a inside ne. prev_kept g a small inside ne) (v.linked g small)),
    )
      where
        next_b : next_of m' b ≡ head
        next_b = push-next groups m b g b ∙ (rw (eq→== b b refl) refl)

    linked_there :
        (h : ℕ)
        → h < group_count
        → h ≢ g
        → Linked (prev_of m') (next_of m') none (get_or groups' h none) (lists h)
    linked_there h low ne =
        subst (λ (o : Option Address). Linked (prev_of m') (next_of m') none o (lists h))
          (sym (
            ap (λ (gs : EmptyClass). get_or gs h none) (push-groups groups m b g)
            ∙ get_or-set_ne groups g h (some b) none (λ same. ne (sym same))))
          (frame (prev_of m) (next_of m) (prev_of m') (next_of m') (lists h) none
            (get_or groups h none)
            (λ a inside.
              prev_kept h a low inside (λ e. cc (apart h g a low small ne inside, head_inside a e)))
            (λ a inside. next_kept h a low inside) (v.linked h low))

    grouped' :
        (h a : ℕ)
        → h < group_count
        → has a (with_list lists g (b ∷ lists g) h) ≡ true
        → (m' a).group ≡ h
    grouped' h a low inside = elim (Bool-cases (a == b)) [
      | inl same ↦ push-group groups m b g a ∙ (rw same (omega (arith, small, of_b same)))
      | inr other ↦ push-group groups m b g a ∙ (rw other (v.grouped h a low (old other)))
    ]
      where
        old : (a == b) ≡ false → has a (lists h) ≡ true
        old other = ground (arith, inside, other)

        of_b : (a == b) ≡ true → g ≡ h
        of_b same = ground (arith, inside, outside h low, ==→eq a b same)

    pub push_front-IsClass : IsClass groups' m' (with_list lists g (b ∷ lists g))
    push_front-IsClass = record {
      whole =
          ap (λ (gs : EmptyClass). length gs) (push-groups groups m b g)
          ∙ length-set groups g (some b)
          ∙ v.whole;
      linked = λ (h : ℕ) (low : h < group_count). elim (Bool-cases (h == g)) [
        | inl same ↦ rw same (
            subst
              (λ (i : ℕ).
                Linked (prev_of m') (next_of m') none (get_or groups' i none) (b ∷ lists g))
              (sym (==→eq h g same)) linked_here)
        | inr other ↦ rw other (linked_there h low (==→ne h g other))
      ];
      distinct = λ (h : ℕ) (low : h < group_count). elim (Bool-cases (h == g)) [
        | inl same ↦ rw same (outside g small, v.distinct g small)
        | inr other ↦ rw other (v.distinct h low)
      ];
      grouped = grouped';
    }

-- Putting a block that is in no group makes it the head of the list of its group.
pub put-IsClass :
    (groups : EmptyClass) (m : Metas) (lists : Lists) (b : Address)
    → IsClass groups m lists
    → group (m b) < group_count
    → ((h : ℕ) → h < group_count → has b (lists h) ≡ false)
    → let (groups', m') = put groups m b in
      IsClass groups' m' (with_list lists (group (m b)) (b ∷ lists (group (m b))))
unfolding put
put-IsClass groups m lists b v small outside =
    push_front-IsClass groups m lists v b (group (m b)) small outside

-- New groups have no blocks.
pub new-IsClass : (m : Metas) → IsClass new m (λ (g : ℕ). [])
unfolding new
new-IsClass m = record {
  whole = length-replicate {A = Option Address} group_count none;
  linked = λ g low. get_or-replicate group_count g none;
  distinct = λ g low. tt;
  grouped = λ g a low inside. absurd (ground (arith, inside));
}
