-- ===== src/Linked/Laws.antt =====
-- Putting a cell in front of a linked list, and taking one out of it.
use malloc_kit.Base.{
  ℕ, suc, length, ◌≡◌, ◌≢◌, ◌⊎◌, inl, inr, refl, sym, subst, ◌∙◌, ap, arith, true, false, List, [],
  ◌∷◌, Option, some, ◌==◌, ◌||◌, ◌&&◌, not, Bool-cases, ==→eq, ==→ne,
}
use malloc_kit.Chain.{has, Distinct}
use malloc_kit.Linked.{Links, Linked, erase}

pub some-inj : (a b : ℕ) → ◌≡◌ {A = Option ℕ} (some a) (some b) → a ≡ b
some-inj a b e = cc

pub has-apart : (a u : ℕ) (us : List ℕ) → has a us ≡ true → has u us ≡ false → a ≢ u
has-apart a u us there out e = cc (ap (λ (n : ℕ). has n us) e)

module _ (prev next prev' next' : Links) where
  -- Pointers that agree on the cells of a list.
  pub frame :
      (us : List ℕ) (before head : Option ℕ)
      → ((a : ℕ) → has a us ≡ true → prev' a ≡ prev a)
      → ((a : ℕ) → has a us ≡ true → next' a ≡ next a)
      → Linked prev next before head us
      → Linked prev' next' before head us
  frame [] before head back forth linked = linked
  frame (u ∷ us) before head back forth (start, behind, linked) = (
    start,
    back u (ground arith) ∙ behind,
    rw (forth u (ground arith)) (
        frame us (some u) (next u) (λ a there. back a (ground arith))
          (λ a there. forth a (ground arith)) linked),
  )

  -- Pointers that differ at most at the first cell's way back.
  pub rebase :
      (us : List ℕ) (before before' head : Option ℕ)
      → Distinct us
      → ((a : ℕ) → has a us ≡ true → next' a ≡ next a)
      → ((a : ℕ) → has a us ≡ true → head ≡ some a → prev' a ≡ before')
      → ((a : ℕ) → has a us ≡ true → head ≢ some a → prev' a ≡ prev a)
      → Linked prev next before head us
      → Linked prev' next' before' head us
  rebase [] before before' head distinct forth first back linked = linked
  rebase (u ∷ us) before before' head (out, distinct) forth first back (start, behind, linked) = (
    start,
    first u (ground arith) start,
    rw (forth u (ground arith)) (
        frame us (some u) (next u)
          (λ a there.
            back a (ground arith) (λ e. has-apart a u us there out (some-inj a u (sym e ∙ start))))
          (λ a there. forth a (ground arith)) linked),
  )

module _ (prev next : Links) where
  -- The cell after a cell of the list is in the list, and not the first.
  pub next-has :
      (us : List ℕ) (before head : Option ℕ) (u a : ℕ)
      → Linked prev next before head us
      → has u us ≡ true
      → next u ≡ some a
      → has a us ≡ true
  next-has [] before head u a linked there e = cc
  next-has (v ∷ vs) before head u a (start, behind, linked) there e = elim (Bool-cases (u == v)) [
    | inl same ↦
        later vs
          (subst (λ (w : ℕ). Linked prev next (some w) (next w) vs) (sym (==→eq u v same)) linked)
    | inr other ↦ ground (arith, next-has vs (some v) (next v) u a linked)
  ]
    where
      later : (vs : List ℕ) → Linked prev next (some u) (next u) vs → has a (v ∷ vs) ≡ true
      later [] linked = cc
      later (w ∷ ws) (start, behind, linked) = ground (arith, some-inj w a (sym start ∙ e))

  -- The cell before a cell of the list is in the list, unless this is the first.
  pub prev-has :
      (us : List ℕ) (before head : Option ℕ) (u : ℕ)
      → Linked prev next before head us
      → has u us ≡ true
      → (head ≡ some u × (prev u ≡ before)) ⊎ ((w : ℕ) × (prev u ≡ some w) × (has w us ≡ true))
  prev-has [] before head u linked there = cc
  prev-has (v ∷ vs) before head u (start, behind, linked) there = elim (Bool-cases (u == v)) [
    | inl same ↦ let e : u ≡ v = ==→eq u v same in inl (start ∙ ap some (sym e), ap prev e ∙ behind)
    | inr other ↦ elim (prev-has vs (some v) (next v) u linked (ground arith)) [
      | inl first ↦ inr (v, first.1, ground arith)
      | inr later ↦ inr (later.0, later.1, ground (arith, later.2))
    ]
  ]

module _ (prev next : Links) where
  -- The first cell points back to what is before the list.
  pub first_back :
      (us : List ℕ) (before head : Option ℕ) (u : ℕ)
      → Linked prev next before head us
      → has u us ≡ true
      → head ≡ some u
      → prev u ≡ before
  first_back [] before head u linked there first = cc
  first_back (v ∷ vs) before head u (start, behind, linked) there first =
      ap prev (some-inj u v (sym first ∙ start)) ∙ behind

pub has-erase :
    (a u : ℕ) (us : List ℕ) → Distinct us → has a (erase u us) ≡ (has a us && not (a == u))
has-erase a u [] distinct = refl
has-erase a u (v ∷ vs) (out, distinct) = elim (Bool-cases (u == v)) [
  | inl same ↦ rw same (head_case a u v vs (==→eq u v same) out)
  | inr other ↦ rw other (ground (arith, has-erase a u vs distinct))
]
  where
    head_case :
        (a u v : ℕ) (vs : List ℕ)
        → u ≡ v
        → has v vs ≡ false
        → has a vs ≡ (((a == v) || has a vs) && not (a == u))
    head_case a u v vs e out = elim (Bool-cases (has a vs)) [
      | inl there ↦ ground (arith, has-apart a v vs there out)
      | inr absent ↦ ground (arith, absent)
    ]

pub Distinct-erase : (a : ℕ) (us : List ℕ) → Distinct us → Distinct (erase a us)
Distinct-erase a [] distinct = tt
Distinct-erase a (u ∷ us) (out, distinct) = elim (Bool-cases (a == u)) [
  | inl same ↦ rw same distinct
  | inr other ↦ rw other (rw (has-erase u a us distinct, out) refl, Distinct-erase a us distinct)
]

-- The pointers after a cell is taken out: its neighbours point to each other.
pub record Bypassed (prev next prev' next' : Links) (u : ℕ) (us : List ℕ) : Type 0 where
  pub forth_self : (a : ℕ) → has a us ≡ true → a ≢ u → prev u ≡ some a → next' a ≡ next u
  pub forth : (a : ℕ) → has a us ≡ true → a ≢ u → prev u ≢ some a → next' a ≡ next a
  pub back_self : (a : ℕ) → has a us ≡ true → a ≢ u → next u ≡ some a → prev' a ≡ prev u
  pub back : (a : ℕ) → has a us ≡ true → a ≢ u → next u ≢ some a → prev' a ≡ prev a

module _ (prev next prev' next' : Links) where
  -- Taking a cell out: the first pointer moves on when the cell was the first.
  pub unlink :
      (us : List ℕ) (before head head' : Option ℕ) (u : ℕ)
      → Linked prev next before head us
      → Distinct us
      → ((w : ℕ) → before ≡ some w → has w us ≡ false)
      → has u us ≡ true
      → Bypassed prev next prev' next' u us
      → (head ≡ some u → head' ≡ next u)
      → (head ≢ some u → head' ≡ head)
      → Linked prev' next' before head' (erase u us)
  unlink [] before head head' u linked distinct outside there bypassed moved kept = cc
  unlink (v ∷ vs) before head head' u (start, behind, linked) (out, distinct) outside there b moved
        kept =
      elim (Bool-cases (u == v)) [
        | inl same ↦
            let e : u ≡ v = ==→eq u v same in
            rw (same, moved (start ∙ ap some (sym e)))
              (rebase prev next prev' next' vs (some v) before (next u) distinct
                (λ a h. b.forth a (ground arith) (apart e a h) (not_back e a h))
                (λ a h after.
                  b.back_self a (ground arith) (apart e a h) after ∙ (ap prev e ∙ behind))
                (λ a h ne. b.back a (ground arith) (apart e a h) ne)
                (subst (λ (w : ℕ). Linked prev next (some v) (next w) vs) (sym e) linked))
        | inr other ↦
            let ne : v ≢ u = (λ e. ==→ne u v other (sym e)) in
            let inside : has u vs ≡ true = ground arith in
            rw (other) (
              kept (λ e. ne (some-inj v u (sym start ∙ e))) ∙ start,
              b.back v (ground arith) ne
                    (λ e. not_in (next-has prev next vs (some v) (next v) u v linked inside e))
                  ∙ behind,
              unlink vs (some v) (next v) (next' v) u linked distinct
                  (λ w e. subst (λ (n : ℕ). has n vs ≡ false) (some-inj v w e) out) inside
                  (record {
                    forth_self = λ a h. b.forth_self a (ground arith);
                    forth = λ a h. b.forth a (ground arith);
                    back_self = λ a h. b.back_self a (ground arith);
                    back = λ a h. b.back a (ground arith);
                  })
                  (λ e.
                    b.forth_self v (ground arith) ne
                      (first_back prev next vs (some v) (next v) u linked inside e))
                  (λ kept_next. b.forth v (ground arith) ne (λ e. not_first inside kept_next e)),
            )
      ]
    where
      not_in : has v vs ≡ true → ⊥
      not_in h = cc

      apart : u ≡ v → (a : ℕ) → has a vs ≡ true → a ≢ u
      apart e a h same = has-apart a v vs h out (same ∙ e)

      has_later : (a : ℕ) → has a vs ≡ true → has a (v ∷ vs) ≡ true
      has_later a h = ground arith

      not_back : u ≡ v → (a : ℕ) → has a vs ≡ true → prev u ≢ some a
      not_back e a h back = cc (outside a (sym (ap prev e ∙ behind) ∙ back), has_later a h)

      not_first : has u vs ≡ true → next v ≢ some u → prev u ≢ some v
      not_first inside other back = elim (prev-has prev next vs (some v) (next v) u linked inside) [
        | inl first ↦ other first.0
        | inr later ↦
            not_in
              (subst (λ (w : ℕ). has w vs ≡ true) (some-inj later.0 v (sym later.1 ∙ back)) later.2)
      ]

pub length-erase : (u : ℕ) (us : List ℕ) → has u us ≡ true → length us ≡ suc (length (erase u us))
length-erase u [] there = cc
length-erase u (v ∷ vs) there = ground (arith, length-erase u vs)

-- The cell that the head points to is in the list.
pub head-has :
    (prev next : Links) (us : List ℕ) (before head : Option ℕ) (u : ℕ)
    → Linked prev next before head us
    → head ≡ some u
    → has u us ≡ true
head-has prev next [] before head u linked e = cc
head-has prev next (v ∷ vs) before head u linked e = ground (arith, some-inj v u (sym linked.0 ∙ e))

-- No cell is before itself.
pub not_own_prev :
    (prev next : Links) (us : List ℕ) (before head : Option ℕ) (u : ℕ)
    → Linked prev next before head us
    → Distinct us
    → has u us ≡ true
    → before ≢ some u
    → prev u ≢ some u
not_own_prev prev next [] before head u linked distinct there ne = cc
not_own_prev prev next (v ∷ vs) before head u (start, behind, linked) (out, distinct) there ne =
    elim (Bool-cases (u == v)) [
      | inl same ↦ λ e. ne (sym (ap prev (==→eq u v same) ∙ behind) ∙ e)
      | inr other ↦
          not_own_prev prev next vs (some v) (next v) u linked distinct (ground arith)
            (λ e. ==→ne u v other (sym (some-inj v u e)))
    ]
