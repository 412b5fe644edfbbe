-- ===== src/Intrusive/CellList/Writes.antt =====
-- What the writes of the operations on the lists of free cells do to the fields of a cell.
use malloc_kit.Base.{
  ℕ, ◌%◌, ◌^◌, ◌≡◌, ◌≢◌, inl, inr, refl, arith, Bool, false, ◌&&◌, ◌==◌, Bool-cases, ==→eq,
  if◌then◌else◌, Option, none, some,
}
use malloc_kit.Address.{Address}
use malloc_kit.Linked.{Links, points_to-cases}
use malloc_kit.Linked.Laws.{some-inj}
use malloc_kit.Intrusive.CellList.{Cell, State, write, write_prev, write_next}

abbrev pub prev_of : State → Links
prev_of s u = (s.cell u).prev

abbrev pub next_of : State → Links
next_of s u = (s.cell u).next

-- The mark that makes a cell free for the list.
abbrev pub mark : (self : Address) → Cell → ℕ → Bool
mark self c size_class = c.free == 1 && c.class == size_class % 2 ^ 32 && c.owner == self

pub write_prev-next :
    (m : ℕ → Cell) (p q : Option ℕ) (v : ℕ) → (write_prev m p q v).next ≡ (m v).next
unfolding write_prev
write_prev-next m none q v = refl
write_prev-next m (some p) q v = ground arith

pub write_prev-mark :
    (self : Address) (m : ℕ → Cell) (p q : Option ℕ) (v c : ℕ)
    → mark self (write_prev m p q v) c ≡ mark self (m v) c
unfolding write_prev
write_prev-mark self m none q v c = refl
write_prev-mark self m (some p) q v c = ground arith

pub write_prev_self :
    (m : ℕ → Cell) (p q : Option ℕ) (v : ℕ) → p ≡ some v → (write_prev m p q v).prev ≡ q
unfolding write_prev
write_prev_self m none q v e = cc
write_prev_self m (some p) q v e = ground (arith, some-inj p v e)

pub write_prev-other :
    (m : ℕ → Cell) (p q : Option ℕ) (v : ℕ) → p ≢ some v → (write_prev m p q v).prev ≡ (m v).prev
unfolding write_prev
write_prev-other m none q v ne = refl
write_prev-other m (some p) q v ne = elim (points_to-cases (some p) v) [
  | inl same ↦ absurd (ne same.0)
  | inr other ↦ rw (flip other.1) refl
]
  where
    flip : (p == v) ≡ false → (v == p) ≡ false
    flip h = ground (arith, h)

pub write_next-prev :
    (m : ℕ → Cell) (p q : Option ℕ) (v : ℕ) → (write_next m p q v).prev ≡ (m v).prev
unfolding write_next
write_next-prev m none q v = refl
write_next-prev m (some p) q v = ground arith

pub write_next-mark :
    (self : Address) (m : ℕ → Cell) (p q : Option ℕ) (v c : ℕ)
    → mark self (write_next m p q v) c ≡ mark self (m v) c
unfolding write_next
write_next-mark self m none q v c = refl
write_next-mark self m (some p) q v c = ground arith

pub write_next_self :
    (m : ℕ → Cell) (p q : Option ℕ) (v : ℕ) → p ≡ some v → (write_next m p q v).next ≡ q
unfolding write_next
write_next_self m none q v e = cc
write_next_self m (some p) q v e = ground (arith, some-inj p v e)

pub write_next-other :
    (m : ℕ → Cell) (p q : Option ℕ) (v : ℕ) → p ≢ some v → (write_next m p q v).next ≡ (m v).next
unfolding write_next
write_next-other m none q v ne = refl
write_next-other m (some p) q v ne = elim (points_to-cases (some p) v) [
  | inl same ↦ absurd (ne same.0)
  | inr other ↦ rw (flip other.1) refl
]
  where
    flip : (p == v) ≡ false → (v == p) ≡ false
    flip h = ground (arith, h)

-- The cells after a push, from the cells whose way back is set.
abbrev pub finished : (ℕ → Cell) → (u k : ℕ) → Option ℕ → ℕ → Cell
finished m u k head =
    let m1 = write m u (record (m u) { next = head }) in
    write m1 u (record (m1 u) { free = 1; class = k % 2 ^ 32 })

pub finished-next :
    (m : ℕ → Cell) (u k : ℕ) (head : Option ℕ) (v : ℕ)
    → (finished m u k head v).next ≡ (if v == u then head else (m v).next)
finished-next m u k head v = ground arith

pub finished-prev :
    (m : ℕ → Cell) (u k : ℕ) (head : Option ℕ) (v : ℕ) → (finished m u k head v).prev ≡ (m v).prev
finished-prev m u k head v = ground arith

pub finished-mark :
    (self : Address) (m : ℕ → Cell) (u k : ℕ) (head : Option ℕ) (v c : ℕ)
    → (m u).owner ≡ self
    → mark self (finished m u k head v) c
      ≡ (if v == u then k % 2 ^ 32 == c % 2 ^ 32 else mark self (m v) c)
finished-mark self m u k head v c own = elim (Bool-cases (v == u)) [
  | inl same ↦ rw same (here (==→eq v u same))
  | inr other ↦ rw other refl
]
  where
    own_mark : (x y o : ℕ) → o ≡ self → (1 == 1 && x == y && o == self) ≡ (x == y)
    own_mark x y o e = ground (arith, e)

    here :
        v ≡ u
        → mark self
            (record (if u == u then record (m u) { next = head } else m u) {
              free = 1;
              class = k % 2 ^ 32;
            })
            c
          ≡ (k % 2 ^ 32 == c % 2 ^ 32)
    here e = own_mark (k % 2 ^ 32) (c % 2 ^ 32) _ (ground (arith, own))

-- The cell that is pushed, before its neighbour points back to it.
abbrev pub marked : (self : Address) → (ℕ → Cell) → (u k : ℕ) → ℕ → Cell
marked self m u k =
    write m u (record (m u) { prev = none; owner = self; free = 1; class = k % 2 ^ 32 })

pub marked-owner : (self : Address) (m : ℕ → Cell) (u k : ℕ) → (marked self m u k u).owner ≡ self
marked-owner self m u k = ground arith

pub marked-next :
    (self : Address) (m : ℕ → Cell) (u k v : ℕ) → (marked self m u k v).next ≡ (m v).next
marked-next self m u k v = ground arith

pub marked-prev :
    (self : Address) (m : ℕ → Cell) (u k v : ℕ)
    → (marked self m u k v).prev ≡ (if v == u then none else (m v).prev)
marked-prev self m u k v = ground arith

pub write_prev-owner :
    (m : ℕ → Cell) (p q : Option ℕ) (v : ℕ) → (write_prev m p q v).owner ≡ (m v).owner
unfolding write_prev
write_prev-owner m none q v = refl
write_prev-owner m (some p) q v = ground arith

-- The cells after a cell is taken out, from the cells whose neighbours are linked.
abbrev pub cleared : (ℕ → Cell) → ℕ → ℕ → Cell
cleared m u =
    let m1 = write m u (record (m u) { free = 0; class = 0; owner = 0 }) in
    write m1 u (record (m1 u) { free = 0; class = 0 })

pub cleared-next : (m : ℕ → Cell) (u v : ℕ) → (cleared m u v).next ≡ (m v).next
cleared-next m u v = ground arith

pub cleared-prev : (m : ℕ → Cell) (u v : ℕ) → (cleared m u v).prev ≡ (m v).prev
cleared-prev m u v = ground arith

pub cleared-mark :
    (self : Address) (m : ℕ → Cell) (u v c : ℕ)
    → mark self (cleared m u v) c ≡ (if v == u then false else mark self (m v) c)
cleared-mark self m u v c = elim (Bool-cases (v == u)) [
  | inl same ↦ rw same refl
  | inr other ↦ rw other refl
]

-- The cells after `set_as_used`.
abbrev pub unmarked : (ℕ → Cell) → ℕ → ℕ → Cell
unmarked m u = write m u (record (m u) { free = 0; class = 0 })

pub unmarked-mark :
    (self : Address) (m : ℕ → Cell) (u v c : ℕ)
    → mark self (unmarked m u v) c ≡ (if v == u then false else mark self (m v) c)
unmarked-mark self m u v c = elim (Bool-cases (v == u)) [
  | inl same ↦ rw same refl
  | inr other ↦ rw other refl
]

pub unmarked-prev : (m : ℕ → Cell) (u v : ℕ) → (unmarked m u v).prev ≡ (m v).prev
unmarked-prev m u v = ground arith

pub unmarked-next : (m : ℕ → Cell) (u v : ℕ) → (unmarked m u v).next ≡ (m v).next
unmarked-next m u v = ground arith
