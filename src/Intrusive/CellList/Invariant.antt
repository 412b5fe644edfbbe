-- ===== src/Intrusive/CellList/Invariant.antt =====
-- Each class of `IntrusiveFreeList` has a doubly linked list of the cells that are marked with the class.
use malloc_kit.Base.{
  ℕ, ◌≤◌, ◌<◌, ◌≡◌, ◌≢◌, inl, inr, sym, ◌∙◌, arith, true, false, ◌&&◌, leb, Bool-cases,
  if◌then◌else◌, none, List, get_or, length,
}
use malloc_kit.Address.{Address}
use malloc_kit.Chain.{has, Distinct}
use malloc_kit.Linked.{Linked}
use malloc_kit.Intrusive.CellList.{State, is_free}
use malloc_kit.Intrusive.CellList.Writes.{prev_of, next_of}

module _ (self : Address) (n t : ℕ) (classes : t < n) (few : t < 64) where
  -- The free cells are the marked ones.
  unfoldable pub free_at : State → ℕ → ℕ → ℕ
  free_at s c u = if leb c t && is_free self s u c then 1 else 0

  -- Each class has a list that its head leads through, of exactly the cells with its mark.
  pub record Valid (s : State) : Type 0 where
    pub lists : ℕ → List ℕ
    pub whole : length s.table ≡ n
    pub linked :
        (c : ℕ) → c ≤ t → Linked (prev_of s) (next_of s) none (get_or s.table c none) (lists c)
    pub distinct : (c : ℕ) → c ≤ t → Distinct (lists c)
    pub marked : (c u : ℕ) → c ≤ t → has u (lists c) ≡ is_free self s u c

  -- A cell has the mark of one class.
  pub one_class :
      (s : State) (u c k : ℕ)
      → c ≤ t
      → k ≤ t
      → is_free self s u c ≡ true
      → is_free self s u k ≡ true
      → c ≡ k
  unfolding is_free
  one_class s u c k low low' h h' = ground (arith, few)

  pub free-marked :
      (s : State) (u c : ℕ) → 1 ≤ free_at s c u → (c ≤ t) × (is_free self s u c ≡ true)
  unfolding free_at
  free-marked s u c h = ground (arith, h)

  pub not_free : (s : State) (u c : ℕ) → c ≤ t → free_at s c u ≡ 0 → is_free self s u c ≡ false
  unfolding free_at
  not_free s u c low h = ground (arith, h)

  -- A cell of one list is in no other.
  pub apart :
      (s : State) (v : Valid s) (a c k : ℕ)
      → c ≤ t
      → k ≤ t
      → c ≢ k
      → has a (v.lists c) ≡ true
      → has a (v.lists k) ≡ false
  apart s v a c k low low' ne there = elim (Bool-cases (has a (v.lists k))) [
    | inl both ↦ absurd (
        ne (
          one_class s a c k low low' (sym (v.marked c a low) ∙ there)
            (sym (v.marked k a low') ∙ both)))
    | inr absent ↦ absent
  ]

  pub is_free_lem : (s : State) (u k : ℕ) → k ≤ t → is_free self s u k ≡ true → 1 ≤ free_at s k u
  unfolding free_at
  is_free_lem s u k low found = ground (arith, found)
