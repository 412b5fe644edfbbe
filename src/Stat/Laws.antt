-- ===== src/Stat/Laws.antt =====
-- Every allocation is counted once by its alignment and once by its size.
use native.Mathlib.Nat.{mod-eq_of_lt}
use malloc_kit.Base.{
  refl, ℕ, zero, suc, ◌+◌, ◌^◌, ◌≤◌, ◌<◌, ◌≡◌, arith, ◌∙◌, ap, Bool, true, false, List, [], ◌∷◌,
  if◌then◌else◌, length, length-set, get_or, set, wrapping_add, next_power_of_two, trailing_zeros,
}
use malloc_kit.Layout.{Layout}
use malloc_kit.Stat.{zero_counters, Counters, clamp_index, bump, track_allocation}

unfoldable pub sum : List ℕ → ℕ
sum [] = 0
sum (n ∷ ns) = n + sum ns

-- Raising one counter raises the sum by one.
sum-set :
    (ns : List ℕ) (i : ℕ) → i < length ns → sum (set ns i (suc (get_or ns i 0))) ≡ suc (sum ns)
unfolding sum
sum-set [] i h = absurd (omega arith)
sum-set (n ∷ ns) zero h = omega arith
sum-set (n ∷ ns) (suc i) h = omega (arith, sum-set ns i (omega arith))

get_or-sum : (ns : List ℕ) (i : ℕ) → get_or ns i 0 ≤ sum ns
unfolding sum
get_or-sum [] i = omega arith
get_or-sum (n ∷ ns) zero = omega arith
get_or-sum (n ∷ ns) (suc i) = omega (arith, get_or-sum ns i)

clamp-lt : (ns : List ℕ) (i : ℕ) → 1 ≤ length ns → clamp_index ns i < length ns
unfolding clamp_index
clamp-lt ns i h = ground (arith, h)

bump_lem :
    (ns : List ℕ) (i : ℕ)
    → 1 ≤ length ns
    → sum ns + 1 < 2 ^ 64
    → (sum (bump ns i) ≡ sum ns + 1) × (length (bump ns i) ≡ length ns)
unfolding bump
bump_lem ns i some_counter fits =
    let j : ℕ = clamp_index ns i in
    let in_range : j < length ns = clamp-lt ns i some_counter in
    let one : wrapping_add (get_or ns j 0) 1 ≡ suc (get_or ns j 0) =
      omega (arith, get_or-sum ns j, fits) in
    (
      ap (λ (n : ℕ). sum (set ns j n)) one ∙ sum-set ns j in_range ∙ plus_one (sum ns),
      length-set ns j (wrapping_add (get_or ns j 0) 1),
    )
  where
    plus_one : (n : ℕ) → suc n ≡ n + 1
    plus_one n = omega arith

-- The counters are there, and each allocation is in one counter of its alignment and in one of its size.
pub record IsCounted (c : Counters) : Type 0 where
  pub some_alignments : length c.alignments ≡ 12
  pub some_sizes : length c.sizes ≡ 23
  pub by_alignment : sum c.alignments ≡ c.total_allocations
  pub by_size : sum c.sizes ≡ c.total_allocations
  pub large : c.large_allocations ≤ c.total_allocations

-- `track_allocation` writes to a counter in range for every layout, and keeps the two
-- histograms equal to the total, until 2^64 allocations.
track_allocation-IsCounted :
    (c : Counters) (layout : Layout) (is_large : Bool)
    → IsCounted c
    → c.total_allocations + 1 < 2 ^ 64
    → IsCounted (track_allocation c layout is_large)
unfolding track_allocation
track_allocation-IsCounted c layout is_large is fits =
    let a =
      bump_lem c.alignments (trailing_zeros layout.align) (omega (arith, is.some_alignments))
        (omega (arith, is.by_alignment, fits)) in
    let s =
      bump_lem c.sizes (trailing_zeros (next_power_of_two layout.size))
        (omega (arith, is.some_sizes)) (omega (arith, is.by_size, fits)) in
    let total : wrapping_add c.total_allocations 1 ≡ c.total_allocations + 1 = mod-eq_of_lt fits in
    record {
      some_alignments = a.1 ∙ is.some_alignments;
      some_sizes = s.1 ∙ is.some_sizes;
      by_alignment = omega (arith, a.0, is.by_alignment, total);
      by_size = omega (arith, s.0, is.by_size, total);
      large = large_of is_large;
    }
  where
    large_of :
        (b : Bool)
        → (if b then wrapping_add c.large_allocations 1 else c.large_allocations)
          ≤ wrapping_add c.total_allocations 1
    large_of true = omega (arith, is.large, fits)
    large_of false = omega (arith, is.large, fits)

-- Before any allocation.
zero_counters-IsCounted : IsCounted zero_counters
unfolding zero_counters sum
zero_counters-IsCounted = record {
  some_alignments = refl;
  some_sizes = refl;
  by_alignment = refl;
  by_size = refl;
  large = omega arith;
}
