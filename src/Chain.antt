-- ===== src/Chain.antt =====
-- The intrusive stacks of free cells: a head, and in the first word of each cell the next one.
-- Every free list of the program that is linked through its cells is one of these.
pub mod Laws
pub mod Bins
use malloc_kit.Base.{ℕ, ◌≡◌, ◌≢◌, List, [], ◌∷◌, Bool, true, false, ◌==◌, if◌then◌else◌, ◌||◌}
use malloc_kit.Address.{Address}

-- Words of memory, by address; `load` reads one.
abbrev pub Memory : Type 0
Memory = Address → ℕ

abbrev pub store : Memory → Address → ℕ → Memory
store m a v b = if b == a then v else m b

-- From `head` the links lead through exactly the cells of the list, and then to the null address.
abbrev pub Chain : Memory → Address → List Address → Type 0
Chain m head [] = head ≡ 0
Chain m head (c ∷ cs) = (head ≡ c) × (c ≢ 0) × Chain m (m c) cs

abbrev pub has : Address → List Address → Bool
has a [] = false
has a (c ∷ cs) = (a == c) || has a cs

-- No cell occurs twice.
abbrev pub Distinct : List Address → Type 0
Distinct [] = Unit
Distinct (c ∷ cs) = (has c cs ≡ false) × Distinct cs
