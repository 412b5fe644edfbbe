-- ===== src/Buddy/Cover.antt =====
-- The specification of the buddy allocator: how often the free cells cover a unit.
use native.Mathlib.Nat.{div-add-mod, mod-lt}
use malloc_kit.Base.{
  ℕ, zero, suc, ◌+◌, ◌-◌, ◌*◌, ◌/◌, ◌%◌, ◌^◌, ◌≤◌, ◌<◌, ◌≡◌, arith, refl, ap, ◌∙◌, true, Option,
  none, some, leb, ltb, ◌&&◌, ◌==◌, if◌then◌else◌, pow_pos, div_of_sum,
}
use malloc_kit.Buddy.{FreeList, push, pop, remove, sibling}

-- 1 on the units of the cell at `unit`, and 0 elsewhere.
unfoldable pub inside : (unit size_class x : ℕ) → ℕ
inside unit size_class x = if leb unit x && ltb x (unit + 2 ^ size_class) then 1 else 0

-- 1 at one class and unit, and 0 elsewhere.
unfoldable pub single : (size_class unit c u : ℕ) → ℕ
single size_class unit c u = if c == size_class && u == unit then 1 else 0

unfoldable pub sum_below : ℕ → (ℕ → ℕ) → ℕ
sum_below zero g = 0
sum_below (suc n) g = g n + sum_below n g

-- The number of free cells that hold unit `x`, with `free_at c u` entries of unit `u` in class `c < classes`: a cell
-- of class `c` holds `x` when it starts at `x` rounded down.
unfoldable pub cover : (classes : ℕ) (free_at : ℕ → ℕ → ℕ) (x : ℕ) → ℕ
cover classes free_at x = sum_below classes (λ (c : ℕ). free_at c (x / 2 ^ c * 2 ^ c))

-- `after` has one entry more than `before`.
unfoldable pub Added : (before after : ℕ → ℕ → ℕ) (size_class unit : ℕ) → Type 0
Added before after size_class unit = (c u : ℕ) → after c u ≡ before c u + single size_class unit c u

unfoldable pub Same : (before after : ℕ → ℕ → ℕ) → Type 0
Same before after = (c u : ℕ) → after c u ≡ before c u

module _ {State : Type 0} (Valid : State → Type 0) (free_at : State → ℕ → ℕ → ℕ) where
  -- `pop` takes a cell of the class out, or there is none.
  unfoldable pub Popped : State → ℕ → Option ℕ × State → Type 0
  Popped s size_class (none, s') =
      Valid s' × Same (free_at s) (free_at s') × ((u : ℕ) → free_at s size_class u ≡ 0)
  Popped s size_class (some unit, s') = Valid s' × Added (free_at s') (free_at s) size_class unit

-- What the allocator relies on: an implementation keeps a multiset of free cells. A cell that is pushed is in no
-- class, nor is a half of a cell that is split.
pub record IsFreeList (f : FreeList) : Type 1 where
  pub Valid : FreeList.State f → Type 0
  pub free_at : FreeList.State f → ℕ → ℕ → ℕ
  pub few_classes : FreeList.threshold f < 64
  pub push_law :
      (s : FreeList.State f) (unit size_class : ℕ)
      → Valid s
      → size_class ≤ FreeList.threshold f
      → ((c : ℕ) → free_at s c unit ≡ 0)
      → Valid (push f s unit size_class)
        × Added (free_at s) (free_at (push f s unit size_class)) size_class unit
  pub remove_law :
      (s : FreeList.State f) (unit size_class : ℕ)
      → Valid s
      → 1 ≤ free_at s size_class unit
      → Valid (remove f s unit size_class)
        × Added (free_at (remove f s unit size_class)) (free_at s) size_class unit
  pub pop_law :
      (s : FreeList.State f) (size_class : ℕ)
      → Valid s
      → size_class ≤ FreeList.threshold f
      → Popped Valid free_at s size_class (pop f s size_class)
  pub split_law :
      (s : FreeList.State f) (unit child : ℕ)
      → Valid s
      → ((c : ℕ) → free_at s c unit ≡ 0)
      → ((c : ℕ) → free_at s c (sibling unit child) ≡ 0)
      → Valid (FreeList.split_cell f s unit (suc child))
        × Same (free_at s) (free_at (FreeList.split_cell f s unit (suc child)))
  pub is_free_law :
      (s : FreeList.State f) (unit size_class : ℕ)
      → Valid s
      → size_class ≤ FreeList.threshold f
      → FreeList.is_free f s unit size_class ≡ true
      → 1 ≤ free_at s size_class unit

-- Free cells are aligned, of a class below `classes`, and no two of them share a unit.
pub record IsTidy (classes : ℕ) (free_at : ℕ → ℕ → ℕ) : Type 0 where
  pub aligned : (c u : ℕ) → 1 ≤ free_at c u → u % 2 ^ c ≡ 0
  pub in_range : (c u : ℕ) → 1 ≤ free_at c u → (c < classes) × (u < 2 ^ 64)
  pub disjoint : (x : ℕ) → x < 2 ^ 64 → cover classes free_at x ≤ 1

sum_below-same : (n : ℕ) (g h : ℕ → ℕ) → ((c : ℕ) → g c ≡ h c) → sum_below n g ≡ sum_below n h
unfolding sum_below
sum_below-same zero g h same = refl
sum_below-same (suc n) g h same = rw (same n, sum_below-same n g h same) refl

-- Adding `d` to one term adds it to the sum, when the term is in the sum.
sum_below-added :
    (n k d : ℕ) (g h : ℕ → ℕ)
    → ((c : ℕ) → h c ≡ g c + (if c == k then d else 0))
    → sum_below n h ≡ sum_below n g + (if ltb k n then d else 0)
unfolding sum_below
sum_below-added zero k d g h added = ground arith
sum_below-added (suc n) k d g h added = ground (arith, added n, sum_below-added n k d g h added)

single-if :
    (k unit c u d : ℕ)
    → (c ≡ k → (if u == unit then 1 else 0) ≡ d)
    → single k unit c u ≡ (if c == k then d else 0)
unfolding single
single-if k unit c u d h = ground (arith, h)

start_of_inside :
    (unit k x : ℕ) → unit % 2 ^ k ≡ 0 → unit ≤ x → x < unit + 2 ^ k → x / 2 ^ k * 2 ^ k ≡ unit
start_of_inside unit k x aligned low high =
    let d : ℕ = 2 ^ k in
    let parts = div-add-mod unit d in
    let inner : unit / d * d + (x - unit) ≡ x = omega (arith, parts) in
    let quotient : x / d ≡ unit / d =
      rw inner at (div_of_sum (unit / d) d (x - unit) (omega arith)) in
    rw quotient (omega (arith, parts))

-- A cell that starts at `x` rounded down is the one that holds `x`.
inside-start :
    (unit k x : ℕ)
    → unit % 2 ^ k ≡ 0
    → (if x / 2 ^ k * 2 ^ k == unit then 1 else 0) ≡ inside unit k x
unfolding inside
inside-start unit k x aligned =
    if_then (x / 2 ^ k * 2 ^ k) unit x (2 ^ k)
      (λ (low : unit ≤ x) (high : x < unit + 2 ^ k). start_of_inside unit k x aligned low high)
      (omega (arith, div-add-mod x (2 ^ k)))
      (omega (arith, div-add-mod x (2 ^ k), mod-lt x {m = 2 ^ k} (pow_pos k)))
  where
    if_then :
        (q unit x d : ℕ)
        → (unit ≤ x → x < unit + d → q ≡ unit)
        → q ≤ x
        → x < q + d
        → let hit : ℕ = if q == unit then 1 else 0 in
          hit ≡ (if leb unit x && ltb x (unit + d) then 1 else 0)
    if_then q unit x d start low high = ground (arith, start)

pub cover-Same :
    (n : ℕ) (before after : ℕ → ℕ → ℕ)
    → Same before after
    → (x : ℕ) → cover n after x ≡ cover n before x
unfolding cover Same
cover-Same n before after same x = sum_below-same n _ _ (λ (c : ℕ). same c (x / 2 ^ c * 2 ^ c))

-- Adding an aligned cell covers its units once more.
pub cover-Added :
    (n : ℕ) (before after : ℕ → ℕ → ℕ) (k unit : ℕ)
    → Added before after k unit
    → k < n
    → unit % 2 ^ k ≡ 0
    → (x : ℕ) → cover n after x ≡ cover n before x + inside unit k x
unfolding cover Added
cover-Added n before after k unit added low aligned x =
    let term : (c : ℕ)
        → after c (x / 2 ^ c * 2 ^ c)
          ≡ before c (x / 2 ^ c * 2 ^ c) + (if c == k then inside unit k x else 0) =
      λ (c : ℕ).
        added c (x / 2 ^ c * 2 ^ c)
        ∙ ap (λ (t : ℕ). before c (x / 2 ^ c * 2 ^ c) + t)
            (single-if k unit c (x / 2 ^ c * 2 ^ c) (inside unit k x) (λ (same : c ≡ k).
              ap (λ (i : ℕ). if x / 2 ^ i * 2 ^ i == unit then 1 else 0) same
              ∙ inside-start unit k x aligned)) in
    let total = sum_below-added n k (inside unit k x) _ _ term in ground (arith, total, low)
