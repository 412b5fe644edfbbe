-- ===== src/MetaLocal/Split.antt =====
-- The splitting of a cell: the halves that are not wanted become the heads of the lists of their classes.
use malloc_kit.Base.{
  ℕ, zero, suc, ◌+◌, ◌^◌, ◌≤◌, ◌<◌, ◌≡◌, ◌⊎◌, inl, inr, arith, refl, sym, ◌∙◌, ap, Option, length,
  get_or, wrapping_add, ◌<<<◌, ◌>>>◌, pow_mono, pow_double, pow_pos, ◌≢◌, subst, length-set,
  get_or-set_self, get_or-set_ne,
}
use malloc_kit.Address.{Address}
use malloc_kit.Chain.{Memory, store}
use malloc_kit.MetaLocal.{MetaLocal, push_cell, split}

module _ {S : Type 0} (map : S → ℕ → Option Address × S) (unmap : S → Address → ℕ → S) where
  -- The lists and memory after a cell of class `request + rounds` was split down to class `request`.
  pub record IsSplit (before after : MetaLocal map unmap) (cell request rounds : ℕ) : Type 0 where
    -- The second half of the cell of the next class is the head of its list, linked to the old head.
    pub heads :
        (j : ℕ)
        → request ≤ j
        → j < request + rounds
        → (get_or after.freelist j 0 ≡ cell + 2 ^ j)
          × (after.memory (cell + 2 ^ j) ≡ get_or before.freelist j 0)
    pub others :
        (j : ℕ)
        → (j < request) ⊎ (request + rounds ≤ j)
        → get_or after.freelist j 0 ≡ get_or before.freelist j 0
    pub classes : length after.freelist ≡ length before.freelist
    -- Nothing is written outside the cell.
    pub behind :
        (a : Address) → cell + 2 ^ (request + rounds) ≤ a → after.memory a ≡ before.memory a
    pub in_front : (a : Address) → a < cell → after.memory a ≡ before.memory a
    pub space_kept : after.space ≡ before.space

  length-push_cell :
      (l : MetaLocal map unmap) (c : Address) (k : ℕ)
      → length (push_cell map unmap l c k).freelist ≡ length l.freelist
  unfolding push_cell
  length-push_cell l c k = length-set l.freelist k c

  stored : (m : Memory) (a : Address) (v : ℕ) → store m a v a ≡ v
  stored m a v = ground arith

  elsewhere : (m : Memory) (a : Address) (v : ℕ) (b : Address) → b ≢ a → store m a v b ≡ m b
  elsewhere m a v b ne = ground (arith, ne)

  half :
      (cell k : ℕ)
      → k < 62
      → cell + 2 ^ k < 2 ^ 64
      → wrapping_add cell ((1 <<< suc k) >>> 1) ≡ cell + 2 ^ k
  half cell k small fits = omega (arith, pow_double k, pow_mono k 62 (omega (arith, small)), fits)

  -- One more half, that of class `request + rounds`, was pushed first.
  one_more :
      (l after : MetaLocal map unmap) (cell request rounds : ℕ)
      → request + rounds < length l.freelist
      → IsSplit
          (push_cell map unmap l (cell + 2 ^ (request + rounds)) (request + rounds))
          after
          cell
          request
          rounds
      → IsSplit l after cell request (suc rounds)
  unfolding push_cell
  one_more l after cell request rounds known rest =
      let k : ℕ = request + rounds in
      let c2 : Address = cell + 2 ^ k in
      record {
        heads = λ j low high. elim (last_or j k (omega (arith, high))) [
          | inl same ↦
              subst
                (λ (i : ℕ).
                  (get_or after.freelist i 0 ≡ cell + 2 ^ i)
                  × (after.memory (cell + 2 ^ i) ≡ get_or l.freelist i 0))
                (sym same)
                (
                  IsSplit.others rest k (inr (omega arith))
                      ∙ get_or-set_self l.freelist k c2 0 known,
                  IsSplit.behind rest c2 (omega arith) ∙ stored l.memory c2 (get_or l.freelist k 0),
                )
          | inr less ↦
              let (head, link) = IsSplit.heads rest j low less in
              (head, link ∙ get_or-set_ne l.freelist k j c2 0 (omega (arith, less)))
        ];
        others = λ j out.
            IsSplit.others rest j (outside j request rounds out)
            ∙ get_or-set_ne l.freelist k j c2 0 (differs j request rounds out);
        classes = IsSplit.classes rest ∙ length-set l.freelist k c2;
        behind = λ a h.
            IsSplit.behind rest a (omega (arith, h, pow_double k, suc_class request rounds))
            ∙ elsewhere l.memory c2 (get_or l.freelist k 0) a
                (omega (arith, h, pow_double k, pow_pos k, suc_class request rounds));
        in_front = λ a h.
            IsSplit.in_front rest a h
            ∙ elsewhere l.memory c2 (get_or l.freelist k 0) a (omega (arith, h));
        space_kept = IsSplit.space_kept rest;
      }
    where
      last_or : (j k : ℕ) → j < suc k → (j ≡ k) ⊎ (j < k)
      last_or j k h = omega (arith, h)

      outside :
          (j request rounds : ℕ)
          → (j < request) ⊎ (request + suc rounds ≤ j)
          → (j < request) ⊎ (request + rounds ≤ j)
      outside j request rounds h = omega (arith, h)

      differs :
          (j request rounds : ℕ) → (j < request) ⊎ (request + suc rounds ≤ j) → request + rounds ≢ j
      differs j request rounds h = omega (arith, h)

      suc_class : (request rounds : ℕ) → 2 ^ (request + suc rounds) ≡ 2 ^ suc (request + rounds)
      suc_class request rounds = ap (λ (n : ℕ). 2 ^ n) (omega arith)

  pub split_lem :
      (rounds : ℕ) (l : MetaLocal map unmap) (cell request : ℕ)
      → request + rounds < 62
      → request + rounds ≤ length l.freelist
      → cell + 2 ^ (request + rounds) ≤ 2 ^ 64
      → IsSplit l (split map unmap l cell request rounds) cell request rounds
  unfolding split
  split_lem zero l cell request few known fits = record {
    heads = λ j low high. absurd (omega (arith, low, high));
    others = λ j out. refl;
    classes = refl;
    behind = λ a h. refl;
    in_front = λ a h. refl;
    space_kept = refl;
  }
  split_lem (suc rounds) l cell request few known fits =
      rw (half cell (request + rounds) (omega (arith, few)) (inner fits)) (
        one_more l _ cell request rounds (omega (arith, known)) (
          split_lem rounds
            (push_cell map unmap l (cell + 2 ^ (request + rounds)) (request + rounds)) cell request
            (omega (arith, few))
            (subst (λ (n : ℕ). request + rounds ≤ n)
              (sym (length-push_cell l (cell + 2 ^ (request + rounds)) (request + rounds)))
              (omega (arith, known)))
            (omega (arith, inner fits))))
    where
      inner : cell + 2 ^ (request + suc rounds) ≤ 2 ^ 64 → cell + 2 ^ (request + rounds) < 2 ^ 64
      inner h = omega (
        arith,
        h,
        pow_double (request + rounds),
        pow_pos (request + rounds),
        ap (λ (n : ℕ). 2 ^ n) (suc_sum request rounds),
      )
        where
          suc_sum : (m n : ℕ) → m + suc n ≡ suc (m + n)
          suc_sum m n = omega arith
