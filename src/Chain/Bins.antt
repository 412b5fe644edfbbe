-- ===== src/Chain/Bins.antt =====
-- An array of free lists that share one memory.
use malloc_kit.Base.{
  ℕ, ◌<◌, ◌≡◌, ◌≢◌, List, ◌∷◌, true, false, arith, ◌==◌, if◌then◌else◌, refl, sym, ◌∙◌, get_or, set,
  length, length-set, get_or-set_self, get_or-set_ne, ◌⊎◌, inl, inr,
}
use malloc_kit.Address.{Address}
use malloc_kit.Chain.{Memory, store, Chain, has, Distinct}
use malloc_kit.Chain.Laws.{Chain-store, Chain-push, Chain-nonzero}

-- The lists by class, with the list of one class replaced.
unfoldable pub at_class : (ℕ → List Address) → ℕ → List Address → ℕ → List Address
at_class lists k cs j = if j == k then cs else lists j

-- Each bin is the head of the chain through the cells of its list, and no cell is on two lists.
pub record IsBins (m : Memory) (bins : List Address) (lists : ℕ → List Address) : Type 0 where
  pub chains : (i : ℕ) → i < length bins → Chain m (get_or bins i 0) (lists i)
  pub distinct : (i : ℕ) → Distinct (lists i)
  pub apart : (i j : ℕ) (a : Address) → i ≢ j → has a (lists i) ≡ true → has a (lists j) ≡ false

-- No list has the cell.
unfoldable pub Absent : Address → (ℕ → List Address) → Type 0
Absent a lists = (i : ℕ) → has a (lists i) ≡ false

pub at_class_self :
    (lists : ℕ → List Address) (k : ℕ) (cs : List Address) → at_class lists k cs k ≡ cs
unfolding at_class
at_class_self lists k cs = rw (test-self k) refl
  where
    test-self : (n : ℕ) → (n == n) ≡ true
    test-self n = ground arith

pub at_class-ne :
    (lists : ℕ → List Address) (k j : ℕ) (cs : List Address)
    → j ≢ k
    → at_class lists k cs j ≡ lists j
unfolding at_class
at_class-ne lists k j cs ne = rw (test-ne j k ne) refl
  where
    test-ne : (n k : ℕ) → n ≢ k → (n == k) ≡ false
    test-ne n k h = ground (arith, h)

pub class-cases : (j k : ℕ) → (j ≡ k) ⊎ (j ≢ k)
class-cases j k = omega arith

-- A property of each class, from the one that changed and the others.
each_class :
    (P : ℕ → List Address → Type 0) (lists : ℕ → List Address) (k : ℕ) (cs : List Address) (j : ℕ)
    → P k cs
    → (j ≢ k → P j (lists j))
    → P j (at_class lists k cs j)
each_class P lists k cs j here there = elim (class-cases j k) [
  | inl same ↦ rw (same, at_class_self lists k cs) here
  | inr ne ↦ rw (at_class-ne lists k j cs ne) (there ne)
]

-- Two classes have no cell in common when the changed list has none in common with the others.
each_pair :
    (lists : ℕ → List Address) (k : ℕ) (cs : List Address)
    → ((j : ℕ) (a : Address) → j ≢ k → has a cs ≡ true → has a (lists j) ≡ false)
    → ((j : ℕ) (a : Address) → j ≢ k → has a (lists j) ≡ true → has a cs ≡ false)
    → ((i j : ℕ) (a : Address) → i ≢ j → has a (lists i) ≡ true → has a (lists j) ≡ false)
    → (i j : ℕ) (a : Address) → i ≢ j
    → has a (at_class lists k cs i) ≡ true
    → has a (at_class lists k cs j) ≡ false
each_pair lists k cs out back apart i j a ne h = elim (class-cases i k) [
  | inl first ↦
      let ne' : j ≢ k = λ e. ne (first ∙ sym e) in
      rw (at_class-ne lists k j cs ne') (out j a ne' (rw (first, at_class_self lists k cs) at h))
  | inr other ↦
      let h' : has a (lists i) ≡ true = rw (at_class-ne lists k i cs other) at h in
      elim (class-cases j k) [
        | inl second ↦ rw (second, at_class_self lists k cs) (back i a other h')
        | inr third ↦ rw (at_class-ne lists k j cs third) (apart i j a ne h')
      ]
]

module _ (m : Memory) (bins : List Address) (lists : ℕ → List Address) (k : ℕ)
    (low : k < length bins) where
  -- A cell that is on no list is linked in front of one.
  pub push-IsBins :
      (cell : Address)
      → IsBins m bins lists
      → cell ≢ 0
      → Absent cell lists
      → IsBins
          (store m cell (get_or bins k 0))
          (set bins k cell)
          (at_class lists k (cell ∷ lists k))
  unfolding Absent
  push-IsBins cell is ne absent = record {
    chains = λ (i : ℕ) (h : i < length (set bins k cell)).
        each_class (λ (j : ℕ) (cs : List Address). Chain m' (get_or (set bins k cell) j 0) cs) lists
          k (cell ∷ lists k) i
          (rw (get_or-set_self bins k cell 0 low)
            (Chain-push m (get_or bins k 0) cell (lists k) ne (absent k) (is.chains k low)))
          (λ (other : i ≢ k). rw (get_or-set_ne bins k i cell 0 (λ e. other (sym e))) (
            Chain-store m (get_or bins i 0) cell (get_or bins k 0) (lists i) (absent i)
              (is.chains i (rw (length-set bins k cell) at h))));
    distinct = λ (i : ℕ).
        each_class (λ (j : ℕ) (cs : List Address). Distinct cs) lists k (cell ∷ lists k) i
          (absent k, is.distinct k) (λ (other : i ≢ k). is.distinct i);
    apart =
        each_pair lists k (cell ∷ lists k)
          (λ (j : ℕ) (a : Address) (other : j ≢ k) (h : has a (cell ∷ lists k) ≡ true).
            head_or_tail a (lists k) (lists j) (absent j)
              (λ (there : has a (lists k) ≡ true). is.apart k j a (λ e. other (sym e)) there) h)
          (λ (j : ℕ) (a : Address) (other : j ≢ k) (h : has a (lists j) ≡ true).
            neither a (lists k) (lists j) (absent j) h (is.apart j k a other h))
          is.apart;
  }
    where
      m' : Memory
      m' = store m cell (get_or bins k 0)

      head_or_tail :
          (a : Address) (cs ds : List Address)
          → has cell ds ≡ false
          → (has a cs ≡ true → has a ds ≡ false)
          → has a (cell ∷ cs) ≡ true
          → has a ds ≡ false
      head_or_tail a cs ds out tail h = elim (class-cases a cell) [
        | inl same ↦ rw same out
        | inr ne' ↦ ground (arith, tail, h, ne')
      ]

      neither :
          (a : Address) (cs ds : List Address)
          → has cell ds ≡ false
          → has a ds ≡ true
          → has a cs ≡ false
          → has a (cell ∷ cs) ≡ false
      neither a cs ds out there h = elim (class-cases a cell) [
        | inl same ↦ absurd (clash (rw same at there) out)
        | inr ne' ↦ ground (arith, h, ne')
      ]
        where
          clash : has cell ds ≡ true → has cell ds ≡ false → ⊥
          clash = λ t f. ground (arith, t, f)

  -- The head of a list that is not empty is unlinked.
  pub pop-IsBins :
      IsBins m bins lists
      → let cell = get_or bins k 0 in
        cell ≢ 0
        → (rest : List Address) × (lists k ≡ cell ∷ rest)
          × IsBins m (set bins k (m cell)) (at_class lists k rest)
          × Absent cell (at_class lists k rest)
  unfolding Absent
  pop-IsBins is ne =
      let cell : Address = get_or bins k 0 in
      let (rest, eq, chain) = Chain-nonzero m cell (lists k) (is.chains k low) ne in
      let alone : Distinct (cell ∷ rest) = rw eq at (is.distinct k) in
      let of_rest : (a : Address) → has a rest ≡ true → has a (lists k) ≡ true =
        λ (a : Address) (h : has a rest ≡ true). rw eq (or_right a cell rest h) in
      let top : has cell (lists k) ≡ true = rw eq (or_left cell rest) in
      (
        rest,
        eq,
        record {
          chains = λ (i : ℕ) (h : i < length (set bins k (m cell))).
              each_class
                (λ (j : ℕ) (cs : List Address). Chain m (get_or (set bins k (m cell)) j 0) cs) lists
                k rest i (rw (get_or-set_self bins k (m cell) 0 low) chain)
                (λ (other : i ≢ k).
                  rw (get_or-set_ne bins k i (m cell) 0 (λ e. other (sym e)))
                    (is.chains i (rw (length-set bins k (m cell)) at h)));
          distinct = λ (i : ℕ).
              each_class (λ (j : ℕ) (cs : List Address). Distinct cs) lists k rest i alone.1
                (λ (other : i ≢ k). is.distinct i);
          apart =
              each_pair lists k rest
                (λ (j : ℕ) (a : Address) (other : j ≢ k) (h : has a rest ≡ true).
                  is.apart k j a (λ e. other (sym e)) (of_rest a h))
                (λ (j : ℕ) (a : Address) (other : j ≢ k) (h : has a (lists j) ≡ true).
                  not_in_rest a cell rest (rw eq at (is.apart j k a other h)))
                is.apart;
        },
        λ (i : ℕ).
            each_class (λ (j : ℕ) (cs : List Address). has cell cs ≡ false) lists k rest i alone.0
              (λ (other : i ≢ k). is.apart k i cell (λ e. other (sym e)) top),
      )
    where
      or_right : (a cell : Address) (cs : List Address) → has a cs ≡ true → has a (cell ∷ cs) ≡ true
      or_right a cell cs h = ground (arith, h)

      or_left : (cell : Address) (cs : List Address) → has cell (cell ∷ cs) ≡ true
      or_left cell cs = ground arith

      not_in_rest :
          (a cell : Address) (cs : List Address) → has a (cell ∷ cs) ≡ false → has a cs ≡ false
      not_in_rest a cell cs h = ground (arith, h)
