-- ===== src/Intrusive/CellList/Take.antt =====
-- Taking a cell out of the lists of `IntrusiveFreeList`: `pop` and `remove`.
use malloc_kit.Base.{
  ℕ, ◌≤◌, ◌<◌, ◌≡◌, ◌≢◌, inl, inr, refl, sym, ap, ◌∙◌, arith, subst, true, false, not, ◌&&◌, ◌==◌,
  Bool-cases, ==→eq, ==→ne, if◌then◌else◌, Option, none, some, List, [], ◌∷◌, get_or, set, length,
  length-set, get_or-set_self, get_or-set_ne, Option-cases,
}
use malloc_kit.Address.{Address}
use malloc_kit.Chain.{has}
use malloc_kit.Linked.{Linked, erase, points_to-cases}
use malloc_kit.Linked.Laws.{
  head-has, some-inj, frame, unlink, Bypassed, has-erase, Distinct-erase, next-has, prev-has,
  first_back,
}
use malloc_kit.Buddy.{pop, remove}
use malloc_kit.Buddy.Cover.{single, Added, Same, Popped}
use malloc_kit.Intrusive.CellList.{State, is_free, intrusive}
use malloc_kit.Intrusive.CellList.Writes.{prev_of, next_of}
use malloc_kit.Intrusive.CellList.Taken.{
  popped, pop-none, pop-some, popped-mark, popped-next, popped-prev, popped-prev_next, remove-mark,
  remove-Bypassed, remove-table_first, remove-table_later,
}
use malloc_kit.Intrusive.CellList.Invariant.{free_at, Valid, one_class, free-marked, apart}

module _ (self : Address) (n t : ℕ) (classes : t < n) (few : t < 64) where
  abbrev Lists : State → Type 0
  Lists = Valid self n t classes few

  abbrev entries : State → ℕ → ℕ → ℕ
  entries = free_at self n t classes few

  -- What an operation does that takes cell `u` out of the list of class `k`.
  record TakenOut (s s' : State) (u k : ℕ) : Type 0 where
    whole : length s'.table ≡ length s.table
    heads : (c : ℕ) → c ≢ k → get_or s'.table c none ≡ get_or s.table c none
    moved : get_or s.table k none ≡ some u → get_or s'.table k none ≡ next_of s u
    kept : get_or s.table k none ≢ some u → get_or s'.table k none ≡ get_or s.table k none
    bypassed : (us : List ℕ) → Bypassed (prev_of s) (next_of s) (prev_of s') (next_of s') u us
    marks : (v c : ℕ) → is_free self s' v c ≡ (if v == u then false else is_free self s v c)

  module _ (s s' : State) (u k : ℕ) (v : Lists s) (low : k ≤ t) (there : has u (v.lists k) ≡ true)
      (out : TakenOut s s' u k) where
    mine : is_free self s u k ≡ true
    mine = sym (v.marked k u low) ∙ there

    only : (c a : ℕ) → c ≤ t → a ≡ u → is_free self s a c ≡ true → c ≡ k
    only c a h e free =
        one_class self n t classes few s u c k h low
          (ap (λ (x : ℕ). is_free self s x c) (sym e) ∙ free) mine

    elsewhere : (c a : ℕ) → c ≤ t → c ≢ k → a ≡ u → has a (v.lists c) ≡ false
    elsewhere c a h ne e =
        apart self n t classes few s v a k c low h (λ same. ne (sym same))
          (ap (λ (x : ℕ). has x (v.lists k)) e ∙ there)

    erased : (c a : ℕ) → c ≤ t → (has a (v.lists c) && not (a == u)) ≡ is_free self s' a c
    erased c a h = ground (arith, v.marked c a h, out.marks a c)

    linked_here :
        Linked (prev_of s') (next_of s') none (get_or s'.table k none) (erase u (v.lists k))
    linked_here =
        unlink (prev_of s) (next_of s) (prev_of s') (next_of s') (v.lists k) none
          (get_or s.table k none) (get_or s'.table k none) u (v.linked k low) (v.distinct k low)
          (λ w e. cc) there (out.bypassed (v.lists k)) out.moved out.kept

    not_u : (c a : ℕ) → c ≤ t → c ≢ k → has a (v.lists c) ≡ true → a ≢ u
    not_u c a h ne inside e = cc (elsewhere c a h ne e)

    before_has : (a : ℕ) → prev_of s u ≡ some a → has a (v.lists k) ≡ true
    before_has a e =
        elim (prev-has (prev_of s) (next_of s) (v.lists k) none (get_or s.table k none) u
          (v.linked k low) there) [
            | inl first ↦ cc (first.1, e)
            | inr later ↦
                subst (λ (w : ℕ). has w (v.lists k) ≡ true) (some-inj later.0 a (sym later.1 ∙ e))
                  later.2
          ]

    linked_there :
        (c : ℕ)
        → c ≤ t
        → c ≢ k
        → Linked (prev_of s') (next_of s') none (get_or s'.table c none) (v.lists c)
    linked_there c h ne =
        subst (λ (head : Option ℕ). Linked (prev_of s') (next_of s') none head (v.lists c))
          (sym (out.heads c ne))
          (frame (prev_of s) (next_of s) (prev_of s') (next_of s') (v.lists c) none
            (get_or s.table c none)
            (λ a inside. (out.bypassed (v.lists c)).back a inside (not_u c a h ne inside) (λ e. cc (
              apart self n t classes few s v a c k h low ne inside,
              next-has (prev_of s) (next_of s) (v.lists k) none (get_or s.table k none) u a
                  (v.linked k low) there e,
            )))
            (λ a inside.
              (out.bypassed (v.lists c)).forth a inside (not_u c a h ne inside)
                (λ e. cc (apart self n t classes few s v a c k h low ne inside, before_has a e)))
            (v.linked c h))

    take_lem : Lists s' × Added (entries s') (entries s) k u
    unfolding Added free_at single
    take_lem = (
      record {
        lists = λ (c : ℕ). if c == k then erase u (v.lists c) else v.lists c;
        whole = out.whole ∙ v.whole;
        linked = λ (c : ℕ) (h : c ≤ t). elim (Bool-cases (c == k)) [
          | inl same ↦ rw same (
              subst
                (λ (i : ℕ).
                  Linked (prev_of s') (next_of s') none (get_or s'.table i none)
                    (erase u (v.lists i)))
                (sym (==→eq c k same)) linked_here)
          | inr other ↦ rw other (linked_there c h (==→ne c k other))
        ];
        distinct = λ (c : ℕ) (h : c ≤ t). elim (Bool-cases (c == k)) [
          | inl same ↦ rw same (Distinct-erase u (v.lists c) (v.distinct c h))
          | inr other ↦ rw other (v.distinct c h)
        ];
        marked = λ (c a : ℕ) (h : c ≤ t). elim (Bool-cases (c == k)) [
          | inl same ↦ rw same (has-erase a u (v.lists c) (v.distinct c h) ∙ erased c a h)
          | inr other ↦ rw other (
              ground (
                arith,
                v.marked c a h,
                out.marks a c,
                λ (e : a ≡ u). elsewhere c a h (==→ne c k other) e,
              ))
        ];
      },
      λ (c a : ℕ). (ground (arith, out.marks a c, mine, λ (h : c ≤ t) (e : a ≡ u). only c a h e)),
    )

  pub pop_lem :
      (s : State) (k : ℕ)
      → Lists s
      → k ≤ t
      → Popped Lists entries s k (pop (intrusive self n t) s k)
  unfolding Popped Same free_at
  pop_lem s k v low = elim (Option-cases (get_or s.table k none)) [
    | inl empty ↦
        subst (Popped Lists entries s k) (sym (pop-none self n t s k empty)) (
          v,
          λ c u. refl,
          λ (u : ℕ). nothing (v.lists k) empty (v.linked k low) u (v.marked k u low),
        )
    | inr found ↦ subst (Popped Lists entries s k) (sym (pop-some self n t s k found.0 found.1)) (
        take_lem s (popped self n t s k found.0) found.0 k v low (inside found.0 found.1)
          (out found.0 found.1))
  ]
    where
      none_there : (u : ℕ) → is_free self s u k ≡ false → entries s k u ≡ 0
      none_there u h = ground (arith, h)

      nothing :
          (us : List ℕ)
          → get_or s.table k none ≡ none
          → Linked (prev_of s) (next_of s) none (get_or s.table k none) us
          → (u : ℕ) → has u us ≡ is_free self s u k
          → entries s k u ≡ 0
      nothing [] empty linked u same = none_there u (sym same)
      nothing (w ∷ ws) empty linked u same = cc (linked.0, empty)

      inside : (h : ℕ) → get_or s.table k none ≡ some h → has h (v.lists k) ≡ true
      inside h e =
          head-has (prev_of s) (next_of s) (v.lists k) none (get_or s.table k none) h
            (v.linked k low) e

      first : (h : ℕ) → get_or s.table k none ≡ some h → prev_of s h ≡ none
      first h e =
          first_back (prev_of s) (next_of s) (v.lists k) none (get_or s.table k none) h
            (v.linked k low) (inside h e) e

      out : (h : ℕ) → get_or s.table k none ≡ some h → TakenOut s (popped self n t s k h) h k
      out h e = record {
        whole = length-set s.table k (next_of s h);
        heads = λ (c : ℕ) ne. get_or-set_ne s.table k c (next_of s h) none (λ same. ne (sym same));
        moved = λ _.
            get_or-set_self s.table k (next_of s h) none (omega (arith, v.whole, classes, low));
        kept = λ ne. absurd (ne e);
        bypassed = λ us. record {
          forth_self = λ a there ne back. cc (first h e, back);
          forth = λ a there ne back. popped-next self n t s k h a;
          back_self = λ a there ne after. popped-prev_next self n t s k h a after ∙ sym (first h e);
          back = λ a there ne after. popped-prev self n t s k h a after;
        };
        marks = popped-mark self n t s k h;
      }

  pub remove_lem :
      (s : State) (u k : ℕ)
      → Lists s
      → 1 ≤ entries s k u
      → let s' = remove (intrusive self n t) s u k in Lists s' × Added (entries s') (entries s) k u
  remove_lem s u k v there = take_lem s (remove (intrusive self n t) s u k) u k v low inside out
    where
      low : k ≤ t
      low = (free-marked self n t classes few s u k there).0

      inside : has u (v.lists k) ≡ true
      inside = v.marked k u low ∙ (free-marked self n t classes few s u k there).1

      first : get_or s.table k none ≡ some u → prev_of s u ≡ none
      first e =
          first_back (prev_of s) (next_of s) (v.lists k) none (get_or s.table k none) u
            (v.linked k low) inside e

      by_head :
          (P : List (Option ℕ) → Type 0)
          → (get_or s.table k none ≡ some u → P (set s.table k (next_of s u)))
          → (get_or s.table k none ≢ some u → P s.table)
          → P (remove (intrusive self n t) s u k).table
      by_head P at_head later = elim (points_to-cases (get_or s.table k none) u) [
        | inl head ↦
            subst P (sym (remove-table_first self n t s u k (first head.0) head.0)) (at_head head.0)
        | inr other ↦ subst P (sym (remove-table_later self n t s u k other.0)) (later other.0)
      ]

      out : TakenOut s (remove (intrusive self n t) s u k) u k
      out = record {
        whole =
            by_head (λ (table : List (Option ℕ)). length table ≡ length s.table)
              (λ e. length-set s.table k (next_of s u)) (λ ne. refl);
        heads = λ (c : ℕ) ne.
            by_head (λ (table : List (Option ℕ)). get_or table c none ≡ get_or s.table c none)
              (λ e. get_or-set_ne s.table k c (next_of s u) none (λ same. ne (sym same)))
              (λ ne. refl);
        moved = λ e.
            ap (λ (table : List (Option ℕ)). get_or table k none)
              (remove-table_first self n t s u k (first e) e)
            ∙ get_or-set_self s.table k (next_of s u) none (omega (arith, v.whole, classes, low));
        kept = λ ne.
            ap (λ (table : List (Option ℕ)). get_or table k none)
              (remove-table_later self n t s u k ne);
        bypassed = remove-Bypassed self n t s u k;
        marks = remove-mark self n t s u k;
      }
