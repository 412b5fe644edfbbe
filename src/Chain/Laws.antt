-- ===== src/Chain/Laws.antt =====
-- A chain survives writes elsewhere, and grows and shrinks at its head.
use malloc_kit.Base.{ℕ, ◌≡◌, ◌≢◌, List, [], ◌∷◌, false, arith, refl, ap, sym, subst}
use malloc_kit.Address.{Address}
use malloc_kit.Chain.{Memory, store, Chain, has}

pub Chain-store :
    (m : Memory) (head a v : ℕ) (cs : List Address)
    → has a cs ≡ false
    → Chain m head cs
    → Chain (store m a v) head cs
Chain-store m head a v [] out h = h
Chain-store m head a v (c ∷ cs) out h =
    let same : m c ≡ store m a v c = ground arith in
    let rest = Chain-store m (m c) a v cs (ground arith) h.2 in
    (h.0, h.1, subst (λ (n : ℕ). Chain (store m a v) n cs) same rest)

-- Linking a new cell in front.
pub Chain-push :
    (m : Memory) (head cell : ℕ) (cs : List Address)
    → cell ≢ 0
    → has cell cs ≡ false
    → Chain m head cs
    → Chain (store m cell head) cell (cell ∷ cs)
Chain-push m head cell cs ne out h =
    let same : head ≡ store m cell head cell = ground arith in
    let rest = Chain-store m head cell head cs out h in
    (refl, ne, subst (λ (n : ℕ). Chain (store m cell head) n cs) same rest)

pub Chain-zero : (m : Memory) (head : ℕ) (cs : List Address) → Chain m head cs → head ≡ 0 → cs ≡ []
Chain-zero m head [] h e = refl
Chain-zero m head (c ∷ cs) h e = absurd (h.1 (omega (arith, h.0)))

pub Chain-nonzero :
    (m : Memory) (head : ℕ) (cs : List Address)
    → Chain m head cs
    → head ≢ 0
    → (rest : List Address) × (cs ≡ head ∷ rest) × Chain m (m head) rest
Chain-nonzero m head [] h ne = absurd (ne h)
Chain-nonzero m head (c ∷ cs) h ne = (cs, ap (λ (x : ℕ). x ∷ cs) (sym h.0), rw h.0 h.2)
