-- ===== src/Linked.antt =====
-- Doubly linked lists of cells: each cell has a pointer to the one before it and to the one after it. The lists of free
-- cells of mallockit/src/util/mem/freelist/intrusive_freelist.rs and the groups of blocks of hoard/src/pool.rs are such lists.
pub mod Laws
use malloc_kit.Base.{
  ℕ, ◌≡◌, ◌≢◌, ◌⊎◌, inl, inr, refl, arith, Bool, true, false, List, [], ◌∷◌, Option, none, some,
  ◌==◌, if◌then◌else◌,
}

-- The pointer of each cell.
abbrev pub Links : Type 0
Links = ℕ → Option ℕ

-- From `head` the pointers lead through exactly the cells of the list and back; the first one points back to `before`.
abbrev pub Linked : (prev next : Links) (before head : Option ℕ) → List ℕ → Type 0
Linked prev next before head [] = head ≡ none
Linked prev next before head (u ∷ us) =
    (head ≡ some u) × (prev u ≡ before) × Linked prev next (some u) (next u) us

abbrev pub erase : ℕ → List ℕ → List ℕ
erase a [] = []
erase a (u ∷ us) = let rest = erase a us in if a == u then us else u ∷ rest

-- `pointer == Some(a)`
abbrev pub points_to : Option ℕ → ℕ → Bool
points_to none a = false
points_to (some b) a = b == a

pub points_to-cases :
    (p : Option ℕ) (a : ℕ)
    → (p ≡ some a × (points_to p a ≡ true)) ⊎ (p ≢ some a × (points_to p a ≡ false))
points_to-cases none a = inr (λ e. cc, refl)
points_to-cases (some b) a = ground arith
