-- ===== src/Buddy/Tidy.antt =====
-- Adding a cell to the free lists of the buddy allocator, and taking one out.
use native.Mathlib.Nat.{div-add-mod}
use malloc_kit.Base.{
  ℕ, zero, suc, ◌+◌, ◌*◌, ◌/◌, ◌%◌, ◌^◌, ◌≤◌, ◌<◌, ◌≡◌, arith, ◌⊎◌, inl, inr, pow_pos, pow_double,
}
use malloc_kit.Buddy.Cover.{
  inside, single, sum_below, cover, Added, Same, IsTidy, cover-Same, cover-Added,
}

pub single_self : (k unit : ℕ) → single k unit k unit ≡ 1
unfolding single
single_self k unit = ground arith

single-cases : (k unit c u : ℕ) → (c ≡ k × (u ≡ unit)) ⊎ (single k unit c u ≡ 0)
unfolding single
single-cases k unit c u = ground arith

pub inside-halves :
    (unit k x : ℕ) → inside unit (suc k) x ≡ inside unit k x + inside (unit + 2 ^ k) k x
unfolding inside
inside-halves unit k x = ground (arith, pow_double k, pow_pos k)

pub inside-start : (unit k : ℕ) → inside unit k unit ≡ 1
unfolding inside
inside-start unit k = ground (arith, pow_pos k)

sum_below-term : (n c : ℕ) (g : ℕ → ℕ) → c < n → g c ≤ sum_below n g
unfolding sum_below
sum_below-term zero c g low = omega arith
sum_below-term (suc n) c g low = grind (arith, sum_below-term n c g)

-- An aligned free cell covers its first unit.
pub free_at-cover :
    (n : ℕ) (free_at : ℕ → ℕ → ℕ) (k unit : ℕ)
    → k < n
    → unit % 2 ^ k ≡ 0
    → free_at k unit ≤ cover n free_at unit
unfolding cover
free_at-cover n free_at k unit low aligned =
    let start : unit / 2 ^ k * 2 ^ k ≡ unit = omega (arith, div-add-mod unit (2 ^ k)) in
    rw start at (sum_below-term n k (λ (c : ℕ). free_at c (unit / 2 ^ c * 2 ^ c)) low)

-- What is left after a cell is taken out.
pub record Taken (n : ℕ) (before after : ℕ → ℕ → ℕ) (k unit : ℕ) : Type 0 where
  pub tidy : IsTidy n after
  pub aligned : unit % 2 ^ k ≡ 0
  pub low : k < n
  pub fits : unit < 2 ^ 64
  pub covered : (x : ℕ) → cover n before x ≡ cover n after x + inside unit k x

pub take-IsTidy :
    (n : ℕ) (before after : ℕ → ℕ → ℕ) (k unit : ℕ)
    → IsTidy n before
    → Added after before k unit
    → Taken n before after k unit
unfolding Added
take-IsTidy n before after k unit tidy added =
    let there : 1 ≤ before k unit = omega (arith, added k unit, single_self k unit) in
    let (low, fits) = IsTidy.in_range tidy k unit there in
    let aligned = IsTidy.aligned tidy k unit there in
    let covered = cover-Added n after before k unit added low aligned in
    let more : (c u : ℕ) → 1 ≤ after c u → 1 ≤ before c u =
      λ (c u : ℕ) (h : 1 ≤ after c u). omega (arith, added c u) in
    record {
      tidy = record {
        aligned = λ (c u : ℕ) (h : 1 ≤ after c u). IsTidy.aligned tidy c u (more c u h);
        in_range = λ (c u : ℕ) (h : 1 ≤ after c u). IsTidy.in_range tidy c u (more c u h);
        disjoint = λ (x : ℕ) (h : x < 2 ^ 64). omega (arith, covered x, IsTidy.disjoint tidy x h);
      };
      aligned = aligned;
      low = low;
      fits = fits;
      covered = covered;
    }

-- A cell whose units are not covered can be added.
pub add-IsTidy :
    (n : ℕ) (before after : ℕ → ℕ → ℕ) (k unit : ℕ)
    → IsTidy n before
    → Added before after k unit
    → k < n
    → unit % 2 ^ k ≡ 0
    → unit < 2 ^ 64
    → ((x : ℕ) → x < 2 ^ 64 → cover n before x + inside unit k x ≤ 1)
    → IsTidy n after
unfolding Added
add-IsTidy n before after k unit tidy added low aligned fits room =
    let cases : (c u : ℕ) → 1 ≤ after c u → (c ≡ k × (u ≡ unit)) ⊎ (1 ≤ before c u) =
      λ (c u : ℕ) (h : 1 ≤ after c u). elim (single-cases k unit c u) [
        | inl same ↦ inl same
        | inr zero_there ↦ inr (omega (arith, added c u, zero_there))
      ] in
    record {
      aligned = λ (c u : ℕ) (h : 1 ≤ after c u). elim (cases c u h) [
        | inl same ↦ rw (same.0, same.1) aligned
        | inr old ↦ IsTidy.aligned tidy c u old
      ];
      in_range = λ (c u : ℕ) (h : 1 ≤ after c u). elim (cases c u h) [
        | inl same ↦ (omega (arith, same.0), omega (arith, same.1))
        | inr old ↦ IsTidy.in_range tidy c u old
      ];
      disjoint = λ (x : ℕ) (h : x < 2 ^ 64).
          omega (arith, cover-Added n before after k unit added low aligned x, room x h);
    }

pub Same-IsTidy :
    (n : ℕ) (before after : ℕ → ℕ → ℕ) → IsTidy n before → Same before after → IsTidy n after
unfolding Same
Same-IsTidy n before after tidy same = record {
  aligned = λ (c u : ℕ) (h : 1 ≤ after c u). IsTidy.aligned tidy c u (omega (arith, same c u));
  in_range = λ (c u : ℕ) (h : 1 ≤ after c u). IsTidy.in_range tidy c u (omega (arith, same c u));
  disjoint = λ (x : ℕ) (h : x < 2 ^ 64).
      omega (arith, cover-Same n before after same x, IsTidy.disjoint tidy x h);
}
