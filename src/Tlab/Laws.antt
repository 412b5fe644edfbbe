-- ===== src/Tlab/Laws.antt =====
-- The free cells of a thread and the count of their bytes.
use malloc_kit.Base.{
  ℕ, zero, suc, ◌+◌, ◌*◌, ◌^◌, ◌≤◌, ◌<◌, ◌≡◌, ◌≢◌, List, [], ◌∷◌, Option, none, some, false, arith,
  refl, ap, sym, ◌∙◌, subst, get_or, set, length, length-set, wrapping_add, wrapping_sub, ◌⊎◌, inl,
  inr, eq→==, ne→==,
}
use native.Mathlib.Nat.{mod-eq_of_lt}
use malloc_kit.Address.{Address}
use malloc_kit.Chain.{Memory, Chain, has, Distinct}
use malloc_kit.Chain.Bins.{
  at_class, IsBins, Absent, push-IsBins, pop-IsBins, at_class_self, at_class-ne, class-cases,
}
use malloc_kit.Chain.Laws.{Chain-zero}
use malloc_kit.SizeClass.{SizeClass}
use malloc_kit.Tlab.{DiscreteTlab, push, pop, clear_bin}

-- The bytes of the cells of the classes below `n`.
unfoldable pub total : (SizeClass → ℕ) → ℕ → (ℕ → List Address) → ℕ
total class_bytes zero lists = 0
total class_bytes (suc n) lists = total class_bytes n lists + length (lists n) * class_bytes n

-- The bins are free lists without a cell in common, and `bytes` is the sum of the cells' sizes.
pub record IsTlab (class_bytes : SizeClass → ℕ) (t : DiscreteTlab) (m : Memory)
    (lists : ℕ → List Address) : Type 0 where
  pub is_bins : IsBins m t.bins lists
  pub counted : t.bytes ≡ total class_bytes (length t.bins) lists
  pub fits : t.bytes < 2 ^ 64

module _ (class_bytes : SizeClass → ℕ) where
  total-other :
      (n k : ℕ) (lists : ℕ → List Address) (cs : List Address)
      → n ≤ k
      → total class_bytes n (at_class lists k cs) ≡ total class_bytes n lists
  unfolding total
  total-other zero k lists cs h = refl
  total-other (suc n) k lists cs h =
      rw (total-other n k lists cs (omega arith), at_class-ne lists k n cs (omega arith)) refl

  -- Replacing the list of one class moves the total by the difference.
  total-at_class :
      (n k : ℕ) (lists : ℕ → List Address) (cs : List Address)
      → k < n
      → total class_bytes n (at_class lists k cs) + length (lists k) * class_bytes k
        ≡ total class_bytes n lists + length cs * class_bytes k
  unfolding total
  total-at_class zero k lists cs h = absurd (omega arith)
  total-at_class (suc n) k lists cs h = elim (last n k h) [
    | inl same ↦
        rw (same, total-other k k lists cs (omega arith), at_class_self lists k cs) (omega arith)
    | inr less ↦
        rw (at_class-ne lists k n cs (omega arith))
          (omega (arith, total-at_class n k lists cs less))
  ]
    where
      last : (n k : ℕ) → k < suc n → (n ≡ k) ⊎ (k < n)
      last n k h = omega arith

  -- A cell that is in none of the bins and is not null can be pushed, while the count of bytes fits a word.
  pub push-IsTlab :
      (t : DiscreteTlab) (m : Memory) (lists : ℕ → List Address) (k : SizeClass) (cell : Address)
      → IsTlab class_bytes t m lists
      → k < length t.bins
      → cell ≢ 0
      → Absent cell lists
      → t.bytes + class_bytes k < 2 ^ 64
      → let (t', m') = push class_bytes (t, m) k cell in
        IsTlab class_bytes t' m' (at_class lists k (cell ∷ lists k))
  unfolding push
  push-IsTlab t m lists k cell is low ne absent room =
      let sum = total-at_class (length t.bins) k lists (cell ∷ lists k) low in
      let added : wrapping_add t.bytes (class_bytes k) ≡ t.bytes + class_bytes k =
        mod-eq_of_lt room in
      record {
        is_bins = push-IsBins m t.bins lists k low cell is.is_bins ne absent;
        counted = rw (added, length-set t.bins k cell) (omega (arith, sum, is.counted));
        fits = rw added room;
      }

  -- The result of `pop` on class `k`: nothing, or the head of the list.
  unfoldable pub Popped :
      DiscreteTlab
      → (ℕ → List Address)
      → SizeClass
      → Option Address × (DiscreteTlab × Memory)
      → Type 0
  Popped t lists k (none, (t', m')) = lists k ≡ [] × IsTlab class_bytes t' m' lists
  Popped t lists k (some cell, (t', m')) =
      (rest : List Address) × (lists k ≡ cell ∷ rest)
      × IsTlab class_bytes t' m' (at_class lists k rest)
      × Absent cell (at_class lists k rest)
      × (t'.bytes + class_bytes k ≡ t.bytes)

  -- `pop` returns nothing only from an empty list. Otherwise it returns the head, which is then in
  -- none of the bins, and the count of bytes, which does not underflow, falls by the size of the class.
  pub pop_lem :
      (t : DiscreteTlab) (m : Memory) (lists : ℕ → List Address) (k : SizeClass)
      → IsTlab class_bytes t m lists
      → k < length t.bins
      → Popped t lists k (pop class_bytes (t, m) k)
  unfolding pop Popped
  pop_lem t m lists k is low = elim (class-cases (get_or t.bins k 0) 0) [
    | inl null ↦
        rw (eq→== (get_or t.bins k 0) 0 null)
          (Chain-zero m (get_or t.bins k 0) (lists k) (IsBins.chains is.is_bins k low) null, is)
    | inr cell ↦
        rw (ne→== (get_or t.bins k 0) 0 cell)
          (popped (pop-IsBins m t.bins lists k low is.is_bins cell))
  ]
    where
      times_suc : (n b : ℕ) → suc n * b ≡ n * b + b
      times_suc n b = omega arith

      popped :
          (rest : List Address) × (lists k ≡ get_or t.bins k 0 ∷ rest)
            × IsBins m (set t.bins k (m (get_or t.bins k 0))) (at_class lists k rest)
            × Absent (get_or t.bins k 0) (at_class lists k rest)
          → let head = get_or t.bins k 0 in
            let t' : DiscreteTlab = record {
              bins = set t.bins k (m head);
              bytes = wrapping_sub t.bytes (class_bytes k);
            } in
            Popped t lists k (some head, (t', m))
      popped (rest, eq, bins, absent) =
          let sum = total-at_class (length t.bins) k lists rest low in
          let more : length (lists k) ≡ suc (length rest) = ap length eq in
          let apart : length (lists k) * class_bytes k
              ≡ length rest * class_bytes k + class_bytes k =
            ap (λ (n : ℕ). n * class_bytes k) more ∙ times_suc (length rest) (class_bytes k) in
          let less : wrapping_sub t.bytes (class_bytes k) + class_bytes k ≡ t.bytes =
            omega (arith, sum, apart, is.counted, is.fits) in
          (
            rest,
            eq,
            record {
              is_bins = bins;
              counted =
                  rw (length-set t.bins k (m (get_or t.bins k 0)))
                    (omega (arith, sum, apart, is.counted, less));
              fits = omega (arith, less, is.fits);
            },
            absent,
            less,
          )

-- What `clear` relies on from its callback: it writes at most to the cell that it is given.
unfoldable pub OwnCell : {S : Type 0} → (S → Memory) → (S → Address → S) → Type 0
OwnCell {S} memory f = (s : S) (a b : Address) → b ≢ a → memory (f s a) b ≡ memory s b

unfoldable pub each : {S : Type 0} → (S → Address → S) → S → List Address → S
each f s [] = s
each f s (a ∷ rest) = each f (f s a) rest

module _ {S : Type 0} (memory : S → Memory) (f : S → Address → S) (own : OwnCell memory f) where
  -- A chain without the cell survives the callback.
  callback-Chain :
      (s : S) (a head : Address) (cs : List Address)
      → has a cs ≡ false
      → Chain (memory s) head cs
      → Chain (memory (f s a)) head cs
  unfolding OwnCell
  callback-Chain s a head [] out h = h
  callback-Chain s a head (c ∷ cs) out h =
      let other : c ≢ a = λ e. clash c cs a e out in
      let rest = callback-Chain s a (memory s c) cs (tail c cs a out) h.2 in
      (h.0, h.1, subst (λ (n : ℕ). Chain (memory (f s a)) n cs) (sym (own s a c other)) rest)
    where
      tail :
          (c : Address) (cs : List Address) (a : Address)
          → has a (c ∷ cs) ≡ false
          → has a cs ≡ false
      tail c cs a out = ground (arith, out)

      clash : (c : Address) (cs : List Address) (a : Address) → c ≡ a → has a (c ∷ cs) ≡ false → ⊥
      clash c cs a e out = ground (arith, e, out)

  -- With fuel for its cells, the loop hands every cell of a bin to the callback, in order.
  pub clear_bin_lem :
      (fuel : ℕ) (s : S) (head : Address) (cs : List Address)
      → length cs < fuel
      → Chain (memory s) head cs
      → Distinct cs
      → clear_bin memory f fuel s head ≡ each f s cs
  unfolding clear_bin each
  clear_bin_lem zero s head cs enough chain distinct = absurd (omega arith)
  clear_bin_lem (suc fuel) s head [] enough chain distinct = rw chain refl
  clear_bin_lem (suc fuel) s head (c ∷ cs) enough chain distinct =
      rw (chain.0, ne→== c 0 chain.1)
        (clear_bin_lem fuel (f s c) (memory s c) cs (omega arith)
          (callback-Chain s c (memory s c) cs distinct.0 chain.2) distinct.1)
