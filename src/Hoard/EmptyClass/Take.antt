-- ===== src/Hoard/EmptyClass/Take.antt =====
-- Taking a block out of its group: `remove` and `pop`.
use malloc_kit.Base.{
  ℕ, ◌<◌, ◌≡◌, ◌≢◌, inl, inr, refl, sym, ap, ◌∙◌, arith, subst, true, false, not, ◌==◌, ◌&&◌,
  Bool-cases, ==→eq, ==→ne, eq→==, if◌then◌else◌, Option, none, some, List, [], ◌∷◌, get_or, set,
  length, length-set, get_or-set_self, get_or-set_ne,
}
use malloc_kit.Address.{Address}
use malloc_kit.Chain.{has}
use malloc_kit.Linked.{Linked, erase}
use malloc_kit.Linked.Laws.{
  some-inj, has-apart, frame, unlink, Bypassed, next-has, prev-has, first_back, not_own_prev,
  Distinct-erase, has-erase,
}
use malloc_kit.Hoard.EmptyClass
use malloc_kit.Hoard.EmptyClass.{EmptyClass, Metas, is_block, group_count, set_prev, remove, pop}
use malloc_kit.Hoard.EmptyClass.Links.{
  is_block-cases, prev_of, next_of, set_prev-next, set_prev-group, set_prev_self, set_prev-other,
  unlink-group, unlink-Bypassed,
}
use malloc_kit.Hoard.EmptyClass.Lists.{Lists, with_list, IsClass, apart}

-- What an operation does that takes block `b` out of group `g`.
pub record TakenOut (groups groups' : EmptyClass) (m m' : Metas) (b g : ℕ) : Type 0 where
  whole : length groups' ≡ length groups
  heads : (h : ℕ) → h ≢ g → get_or groups' h none ≡ get_or groups h none
  moved : get_or groups g none ≡ some b → get_or groups' g none ≡ next_of m b
  kept : get_or groups g none ≢ some b → get_or groups' g none ≡ get_or groups g none
  bypassed : (us : List Address) → Bypassed (prev_of m) (next_of m) (prev_of m') (next_of m') b us
  groups_kept : (a : Address) → (m' a).group ≡ (m a).group

module _ (groups : EmptyClass) (m : Metas) (lists : Lists) (v : IsClass groups m lists) (b g : ℕ)
    (small : g < group_count) (there : has b (lists g) ≡ true) where
  first_prev : get_or groups g none ≡ some b → prev_of m b ≡ none
  first_prev e =
      first_back (prev_of m) (next_of m) (lists g) none (get_or groups g none) b (v.linked g small)
        there e

  module _ (groups' : EmptyClass) (m' : Metas) (out : TakenOut groups groups' m m' b g) where
    linked_here : Linked (prev_of m') (next_of m') none (get_or groups' g none) (erase b (lists g))
    linked_here =
        unlink (prev_of m) (next_of m) (prev_of m') (next_of m') (lists g) none
          (get_or groups g none) (get_or groups' g none) b (v.linked g small) (v.distinct g small)
          (λ w e. cc) there (out.bypassed (lists g)) out.moved out.kept

    elsewhere : (h : ℕ) → h < group_count → h ≢ g → has b (lists h) ≡ false
    elsewhere h low ne = apart groups m lists v g h b small low (λ e. ne (sym e)) there

    not_b : (h a : ℕ) → h < group_count → h ≢ g → has a (lists h) ≡ true → a ≢ b
    not_b h a low ne inside = has-apart a b (lists h) inside (elsewhere h low ne)

    neighbour_inside : (a : Address) → prev_of m b ≡ some a → has a (lists g) ≡ true
    neighbour_inside a e =
        elim (prev-has (prev_of m) (next_of m) (lists g) none (get_or groups g none) b
          (v.linked g small) there) [
            | inl first ↦ cc (first.1, e)
            | inr later ↦
                subst (λ (w : ℕ). has w (lists g) ≡ true) (some-inj later.0 a (sym later.1 ∙ e))
                  later.2
          ]

    linked_there :
        (h : ℕ)
        → h < group_count
        → h ≢ g
        → Linked (prev_of m') (next_of m') none (get_or groups' h none) (lists h)
    linked_there h low ne =
        subst (λ (o : Option Address). Linked (prev_of m') (next_of m') none o (lists h))
          (sym (out.heads h ne))
          (frame (prev_of m) (next_of m) (prev_of m') (next_of m') (lists h) none
            (get_or groups h none)
            (λ a inside. (out.bypassed (lists h)).back a inside (not_b h a low ne inside) (λ e. cc (
              apart groups m lists v h g a low small ne inside,
              next-has (prev_of m) (next_of m) (lists g) none (get_or groups g none) b a
                  (v.linked g small) there e,
            )))
            (λ a inside.
              (out.bypassed (lists h)).forth a inside (not_b h a low ne inside)
                (λ e. cc (apart groups m lists v h g a low small ne inside, neighbour_inside a e)))
            (v.linked h low))

    still :
        (h a : ℕ)
        → h < group_count
        → has a (with_list lists g (erase b (lists g)) h) ≡ true
        → has a (lists h) ≡ true
    still h a low inside = elim (Bool-cases (h == g)) [
      | inl same ↦
          subst (λ (i : ℕ). has a (lists i) ≡ true) (sym (==→eq h g same))
            (before (has-erase a b (lists g) (v.distinct g small)) (rw same at inside))
      | inr other ↦ (rw other at inside)
    ]
      where
        before :
            has a (erase b (lists g)) ≡ (has a (lists g) && not (a == b))
            → has a (erase b (lists g)) ≡ true
            → has a (lists g) ≡ true
        before e h = ground (arith, e, h)

    pub take_lem : IsClass groups' m' (with_list lists g (erase b (lists g)))
    take_lem = record {
      whole = out.whole ∙ v.whole;
      linked = λ (h : ℕ) (low : h < group_count). elim (Bool-cases (h == g)) [
        | inl same ↦ rw same (
            subst
              (λ (i : ℕ).
                Linked (prev_of m') (next_of m') none (get_or groups' i none) (erase b (lists g)))
              (sym (==→eq h g same)) linked_here)
        | inr other ↦ rw other (linked_there h low (==→ne h g other))
      ];
      distinct = λ (h : ℕ) (low : h < group_count). elim (Bool-cases (h == g)) [
        | inl same ↦ rw same (Distinct-erase b (lists g) (v.distinct g small))
        | inr other ↦ rw other (v.distinct h low)
      ];
      grouped =
          λ (h a : ℕ) low inside. out.groups_kept a ∙ v.grouped h a low (still h a low inside);
    }

  pub unlink-out :
      let (groups', m') = EmptyClass.unlink groups m b g in TakenOut groups groups' m m' b g
  unfolding EmptyClass.unlink
  unlink-out = record {
    whole =
        by_head (λ (gs : EmptyClass). length gs ≡ length groups)
          (λ e. length-set groups g (next_of m b)) (λ ne. refl);
    heads = λ h ne.
        by_head (λ (gs : EmptyClass). get_or gs h none ≡ get_or groups h none)
          (λ e. get_or-set_ne groups g h (next_of m b) none (λ same. ne (sym same))) (λ _. refl);
    moved = λ e.
        by_head (λ (gs : EmptyClass). get_or gs g none ≡ next_of m b)
          (λ _. get_or-set_self groups g (next_of m b) none (omega (arith, v.whole, small)))
          (λ ne. absurd (ne e));
    kept = λ ne.
        by_head (λ (gs : EmptyClass). get_or gs g none ≡ get_or groups g none) (λ e. absurd (ne e))
          (λ _. refl);
    bypassed = λ us. unlink-Bypassed groups m b g us (
        not_own_prev (prev_of m) (next_of m) (lists g) none (get_or groups g none) b
          (v.linked g small) (v.distinct g small) there (λ e. cc));
    groups_kept = unlink-group groups m b g;
  }
    where
      by_head :
          (P : EmptyClass → Type 0)
          → (get_or groups g none ≡ some b → P (set groups g (next_of m b)))
          → (get_or groups g none ≢ some b → P groups)
          → P (if is_block (get_or groups g none) b then set groups g (next_of m b) else groups)
      by_head P first later = elim (is_block-cases (get_or groups g none) b) [
        | inl same ↦ rw same.1 (first same.0)
        | inr other ↦ rw other.1 (later other.0)
      ]

-- Removing a block that is listed in the group it is marked with takes it out of the list.
pub remove-IsClass :
    (groups : EmptyClass) (m : Metas) (lists : Lists) (b : Address)
    → IsClass groups m lists
    → (m b).group < group_count
    → has b (lists (m b).group) ≡ true
    → let (groups', m') = remove groups m b in
      IsClass groups' m' (with_list lists (m b).group (erase b (lists (m b).group)))
unfolding remove
remove-IsClass groups m lists b v small there =
    let (groups', m') = EmptyClass.unlink groups m b (m b).group in
    take_lem groups m lists v b (m b).group small there groups' m'
      (unlink-out groups m lists v b (m b).group small there)

-- What `pop` of a group may return: the head of its list, or none when the list is empty.
unfoldable pub Popped :
    EmptyClass → Metas → Lists → ℕ → Option Address × EmptyClass × Metas → Type 0
Popped groups m lists g (none, groups', m') = (groups' ≡ groups) × (m' ≡ m) × (lists g ≡ [])
Popped groups m lists g (some b, groups', m') =
    (rest : List Address) × (lists g ≡ b ∷ rest) × IsClass groups' m' (with_list lists g rest)

-- The state after a pop that found block `b`.
abbrev popped : EmptyClass → Metas → (g : ℕ) → Address → EmptyClass × Metas
popped groups m g b = (set groups g (m b).next, set_prev m (m b).next none)

pop_from : EmptyClass → Metas → ℕ → Option Address → Option Address × EmptyClass × Metas
pop_from groups m g none = (none, groups, m)
pop_from groups m g (some b) = (some b, set groups g (m b).next, set_prev m (m b).next none)

pop-eq :
    (groups : EmptyClass) (m : Metas) (g : ℕ)
    → pop groups m g ≡ pop_from groups m g (get_or groups g none)
unfolding pop pop_from
pop-eq groups m g = by_head (get_or groups g none)
  where
    by_head :
        (o : Option Address)
        → elim o [
          | none ↦ (none, groups, m)
          | some block ↦ (some block, set groups g (m block).next, set_prev m (m block).next none)
        ]
          ≡ pop_from groups m g o
    by_head none = refl
    by_head (some b) = refl

module _ (groups : EmptyClass) (m : Metas) (lists : Lists) (v : IsClass groups m lists) (g : ℕ)
    (small : g < group_count) where
  popped-out :
      (b : Address)
      → get_or groups g none ≡ some b
      → has b (lists g) ≡ true
      → TakenOut groups (popped groups m g b).0 m (popped groups m g b).1 b g
  popped-out b e there =
      let before : prev_of m b ≡ none = first_prev groups m lists v b g small there e in
      record {
        whole = length-set groups g (next_of m b);
        heads = λ h ne. get_or-set_ne groups g h (next_of m b) none (λ same. ne (sym same));
        moved = λ _. get_or-set_self groups g (next_of m b) none (omega (arith, v.whole, small));
        kept = λ ne. absurd (ne e);
        bypassed = λ us. record {
          forth_self = λ a h ne back. cc (before, back);
          forth = λ a h ne back. set_prev-next m (next_of m b) none a;
          back_self = λ a h ne after. set_prev_self m (next_of m b) none a after ∙ sym before;
          back = λ a h ne after. set_prev-other m (next_of m b) none a after;
        };
        groups_kept = set_prev-group m (next_of m b) none;
      }

  -- Popping a group takes the head of its list; it returns none, and changes nothing, only when the list is empty.
  pub pop_lem : Popped groups m lists g (pop groups m g)
  unfolding Popped pop_from
  pop_lem =
      subst (Popped groups m lists g) (sym (pop-eq groups m g))
        (by_head (get_or groups g none) refl (lists g) refl (v.linked g small))
    where
      self_in : (b : Address) (us : List Address) → has b (b ∷ us) ≡ true
      self_in b us = ground arith

      erase_first : (b : Address) (us : List Address) → erase b (b ∷ us) ≡ us
      erase_first b us = rw (eq→== b b refl) refl

      by_head :
          (o : Option Address)
          → get_or groups g none ≡ o
          → (us : List Address) → lists g ≡ us
          → Linked (prev_of m) (next_of m) none (get_or groups g none) us
          → Popped groups m lists g (pop_from groups m g o)
      by_head none e [] same linked = (refl, refl, same)
      by_head none e (u ∷ us) same linked = cc (linked.0, e)
      by_head (some b) e [] same linked = cc (linked, e)
      by_head (some b) e (u ∷ us) same linked =
          let is_first : b ≡ u = some-inj b u (sym e ∙ linked.0) in
          let list : lists g ≡ b ∷ us = same ∙ ap (λ (x : Address). x ∷ us) (sym is_first) in
          let there : has b (lists g) ≡ true =
            ap (λ (xs : List Address). has b xs) list ∙ self_in b us in
          (
            us,
            list,
            subst
                (λ (xs : List Address).
                  IsClass (popped groups m g b).0 (popped groups m g b).1 (with_list lists g xs))
                (ap (λ (xs : List Address). erase b xs) list ∙ erase_first b us)
                (take_lem groups m lists v b g small there (popped groups m g b).0
                  (popped groups m g b).1 (popped-out b e there)),
          )
