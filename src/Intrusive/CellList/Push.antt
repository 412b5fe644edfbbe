-- ===== src/Intrusive/CellList/Push.antt =====
-- Putting a cell into the lists of `IntrusiveFreeList`, and splitting one.
use malloc_kit.Base.{
  ℕ, suc, ◌-◌, ◌%◌, ◌^◌, ◌≤◌, ◌<◌, ◌≡◌, ◌≢◌, inl, inr, refl, sym, ap, ◌∙◌, arith, subst, true,
  false, ◌==◌, Bool-cases, ==→eq, ==→ne, eq→==, ne→==, if◌then◌else◌, Option, none, some, List, ◌∷◌,
  get_or, length, length-set, get_or-set_self, get_or-set_ne,
}
use malloc_kit.Address.{Address}
use malloc_kit.Chain.{has}
use malloc_kit.Linked.{Linked}
use malloc_kit.Linked.Laws.{head-has, has-apart, frame, rebase}
use malloc_kit.Buddy.{push, sibling}
use malloc_kit.Buddy.Cover.{single, Added, Same}
use malloc_kit.Intrusive.CellList.{State, is_free, split_cell, intrusive}
use malloc_kit.Intrusive.CellList.Writes.{prev_of, next_of}
use malloc_kit.Intrusive.CellList.Cells.{
  push-mark, push-table, push-next, push-prev, push-prev_head, split-mark, split-prev, split-next,
  split-table,
}
use malloc_kit.Intrusive.CellList.Invariant.{free_at, Valid, not_free, apart}

module _ (self : Address) (n t : ℕ) (classes : t < n) (few : t < 64) where
  abbrev Lists : State → Type 0
  Lists = Valid self n t classes few

  abbrev entries : State → ℕ → ℕ → ℕ
  entries = free_at self n t classes few

  module _ (s : State) (u k : ℕ) (v : Lists s) (low : k ≤ t)
      (absent : (c : ℕ) → entries s c u ≡ 0) where
    abbrev s' : State
    s' = push (intrusive self n t) s u k

    small : (c : ℕ) → c ≤ t → c % 2 ^ 32 ≡ c
    small c h = omega (arith, h, few)

    outside : (c : ℕ) → c ≤ t → has u (v.lists c) ≡ false
    outside c h = v.marked c u h ∙ not_free self n t classes few s u c h (absent c)

    unmarked_here : (c a : ℕ) → c ≤ t → a ≡ u → is_free self s a c ≡ false
    unmarked_here c a h e =
        ap (λ (x : ℕ). is_free self s x c) e ∙ not_free self n t classes few s u c h (absent c)

    abbrev head : Option ℕ
    head = get_or s.table k none

    not_u : (c a : ℕ) → c ≤ t → has a (v.lists c) ≡ true → (a == u) ≡ false
    not_u c a h inside = ne→== a u (has-apart a u (v.lists c) inside (outside c h))

    next_kept : (c a : ℕ) → c ≤ t → has a (v.lists c) ≡ true → next_of s' a ≡ next_of s a
    next_kept c a h inside = push-next self n t s u k a ∙ (rw (not_u c a h inside) refl)

    prev_kept :
        (c a : ℕ) → c ≤ t → has a (v.lists c) ≡ true → head ≢ some a → prev_of s' a ≡ prev_of s a
    prev_kept c a h inside ne = push-prev self n t s u k a ne ∙ (rw (not_u c a h inside) refl)

    not_head : head ≢ some u
    not_head e =
        cc (
          outside k low,
          head-has (prev_of s) (next_of s) (v.lists k) none head u (v.linked k low) e,
        )

    next_self : next_of s' u ≡ head
    next_self = push-next self n t s u k u ∙ (rw (eq→== u u refl) refl)

    linked_here : Linked (prev_of s') (next_of s') none (get_or s'.table k none) (u ∷ v.lists k)
    linked_here = (
      ap (λ (table : List (Option ℕ)). get_or table k none) (push-table self n t s u k)
          ∙ get_or-set_self s.table k (some u) none (omega (arith, v.whole, classes, low)),
      push-prev self n t s u k u not_head ∙ (rw (eq→== u u refl) refl),
      rw (next_self) (
          rebase (prev_of s) (next_of s) (prev_of s') (next_of s') (v.lists k) none (some u) head
            (v.distinct k low) (λ a inside. next_kept k a low inside)
            (λ a inside e. push-prev_head self n t s u k a e)
            (λ a inside ne. prev_kept k a low inside ne) (v.linked k low)),
    )

    linked_there :
        (c : ℕ)
        → c ≤ t
        → c ≢ k
        → Linked (prev_of s') (next_of s') none (get_or s'.table c none) (v.lists c)
    linked_there c h ne =
        subst (λ (o : Option ℕ). Linked (prev_of s') (next_of s') none o (v.lists c))
          (sym (
            ap (λ (table : List (Option ℕ)). get_or table c none) (push-table self n t s u k)
            ∙ get_or-set_ne s.table k c (some u) none (λ same. ne (sym same))))
          (frame (prev_of s) (next_of s) (prev_of s') (next_of s') (v.lists c) none
            (get_or s.table c none)
            (λ a inside. prev_kept c a h inside (λ e. cc (
              apart self n t classes few s v a c k h low ne inside,
              head-has (prev_of s) (next_of s) (v.lists k) none head a (v.linked k low) e,
            )))
            (λ a inside. next_kept c a h inside) (v.linked c h))

    pub push_lem : Lists s' × Added (entries s) (entries s') k u
    unfolding Added free_at single
    push_lem = (
      record {
        lists = λ (c : ℕ). if c == k then u ∷ v.lists c else v.lists c;
        whole =
            ap (λ (table : List (Option ℕ)). length table) (push-table self n t s u k)
            ∙ length-set s.table k (some u)
            ∙ v.whole;
        linked = λ (c : ℕ) (h : c ≤ t). elim (Bool-cases (c == k)) [
          | inl same ↦ rw same (
              subst
                (λ (i : ℕ).
                  Linked (prev_of s') (next_of s') none (get_or s'.table i none) (u ∷ v.lists i))
                (sym (==→eq c k same)) linked_here)
          | inr other ↦ rw other (linked_there c h (==→ne c k other))
        ];
        distinct = λ (c : ℕ) (h : c ≤ t). elim (Bool-cases (c == k)) [
          | inl same ↦ rw same (outside c h, v.distinct c h)
          | inr other ↦ rw other (v.distinct c h)
        ];
        marked = λ (c a : ℕ) (h : c ≤ t). ground (
          arith,
          v.marked c a h,
          push-mark self n t s u k a c,
          small c h,
          small k low,
          λ (e : a ≡ u). unmarked_here c a h e,
        );
      },
      λ (c a : ℕ). ground (
        arith,
        push-mark self n t s u k a c,
        λ (h : c ≤ t). small c h,
        small k low,
        λ (h : c ≤ t) (e : a ≡ u). unmarked_here c a h e,
      ),
    )

  pub split_lem :
      (s : State) (u child : ℕ)
      → Lists s
      → ((c : ℕ) → entries s c u ≡ 0)
      → ((c : ℕ) → entries s c (sibling u child) ≡ 0)
      → let s' = split_cell self s u (suc child) in Lists s' × Same (entries s) (entries s')
  unfolding Same free_at
  split_lem s u child v here there = (
    record {
      lists = v.lists;
      whole =
          ap (λ (table : List (Option ℕ)). length table) (split-table self n t s u (suc child))
          ∙ v.whole;
      linked = λ (c : ℕ) (h : c ≤ t).
          subst
            (λ (table : List (Option ℕ)).
              Linked (prev_of s') (next_of s') none (get_or table c none) (v.lists c))
            (sym (split-table self n t s u (suc child)))
            (frame (prev_of s) (next_of s) (prev_of s') (next_of s') (v.lists c) none
              (get_or s.table c none) (λ a inside. split-prev self n t s u (suc child) a)
              (λ a inside. split-next self n t s u (suc child) a) (v.linked c h));
      distinct = v.distinct;
      marked = λ (c a : ℕ) (h : c ≤ t). v.marked c a h ∙ sym (same_mark c a h);
    },
    λ (c a : ℕ). ground (arith, λ (h : c ≤ t). same_mark c a h),
  )
    where
      s' : State
      s' = split_cell self s u (suc child)

      same_half : suc child - 1 ≡ child
      same_half = omega arith

      not_here : (c a : ℕ) → c ≤ t → a ≡ u → is_free self s a c ≡ false
      not_here c a h e =
          ap (λ (x : ℕ). is_free self s x c) e ∙ not_free self n t classes few s u c h (here c)

      not_there : (c a : ℕ) → c ≤ t → a ≡ sibling u (suc child - 1) → is_free self s a c ≡ false
      not_there c a h e =
          ap (λ (x : ℕ). is_free self s x c) (e ∙ ap (λ (k : ℕ). sibling u k) same_half)
          ∙ not_free self n t classes few s (sibling u child) c h (there c)

      same_mark : (c a : ℕ) → c ≤ t → is_free self s' a c ≡ is_free self s a c
      same_mark c a h = ground (
        arith,
        split-mark self n t s u (suc child) a c,
        λ (e : a ≡ u). not_here c a h e,
        λ (e : a ≡ sibling u (suc child - 1)). not_there c a h e,
      )
