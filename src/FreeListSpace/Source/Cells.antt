-- ===== src/FreeListSpace/Source/Cells.antt =====
-- The cells that the free list of `FreeListAllocator` hands out, and where they lie.
use native.Mathlib.Nat.{div-add-mod, mul-mod_left}
use malloc_kit.Base.{
  ℕ, ◌+◌, ◌-◌, ◌*◌, ◌/◌, ◌%◌, ◌^◌, ◌≤◌, ◌<◌, ◌≡◌, ◌⊎◌, inl, inr, max, arith, sym, ◌∙◌, ap, subst,
  Option, none, some, pow_mono, pow_pos, pow-add, wrapping_add, log_ceil,
}
use malloc_kit.Powers.{log_ceil-le}
use malloc_kit.Address.Align.{aligned_weaken, aligned_add}
use malloc_kit.Buddy.{FreeList, size_class, allocate_aligned_units}
use malloc_kit.Buddy.Cover.{inside, IsFreeList}
use malloc_kit.Buddy.Allocate.{Shrunk, NoneFree, Allocated, allocate_aligned_units_lem}
use malloc_kit.Intrusive.{AddressRange, unit_to_cell, cell_units, range_of}
use malloc_kit.Intrusive.Laws.{cell_units_lem, size_class-pow}
use malloc_kit.FreeListSpace.Source.{Source, allocate, to_range, allocate-eq, Reached, Handed}

inside_cell : (unit c x : ℕ) → unit ≤ x → x < unit + 2 ^ c → inside unit c x ≡ 1
unfolding inside
inside_cell unit c x low high = ground (arith, low, high)

scaled : (unit k : ℕ) → unit % 2 ^ k ≡ 0 → (unit * 8) % 2 ^ (k + 3) ≡ 0
scaled unit k aligned =
    subst (λ (n : ℕ). n % 2 ^ (k + 3) ≡ 0)
      (omega
        (arith, div-add-mod unit (2 ^ k), aligned, ap (λ (n : ℕ). unit / 2 ^ k * n) (pow-add k 3)))
      (mul-mod_left (unit / 2 ^ k) (2 ^ (k + 3)))

-- Where a cell starts and ends.
cell_bounds :
    (base unit k : ℕ)
    → base + unit * 8 + 2 ^ k * 8 ≤ 2 ^ 62
    → (unit_to_cell base unit ≡ base + unit * 8)
      × (unit_to_cell base (wrapping_add unit (2 ^ k)) ≡ base + unit * 8 + 2 ^ k * 8)
unfolding unit_to_cell
cell_bounds base unit k fits = (omega (arith, fits), omega (arith, fits))

module _ (f : FreeList) (law : IsFreeList f) (base limit : ℕ) (top : f.threshold ≡ 18)
    (least : f.min_size_class ≤ 18) (aligned : base % 2 ^ 21 ≡ 0)
    (room : base + limit * 2 ^ 21 ≤ 2 ^ 62) where
  abbrev with_list : Source f base limit → FreeList.State f → Source f base limit
  with_list s l = record { list = l; next = s.next; contents = s.contents }

  -- The units of an allocated cell are in the pages that were taken.
  in_pages :
      (s : Source f base limit) (t : FreeList.State f) (unit c : ℕ)
      → Reached f law base limit s
      → Shrunk f law s.list t unit c
      → unit + 2 ^ c ≤ s.next * 2 ^ 18
  in_pages s t unit c ok shrunk = elim (either (unit + 2 ^ c) (s.next * 2 ^ 18)) [
    | inl low ↦ low
    | inr high ↦ absurd (
        let last : ℕ = unit + 2 ^ c - 1 in
        omega (
          arith,
          Shrunk.covered shrunk last,
          inside_cell unit c last (omega (arith, pow_pos c)) (omega (arith, pow_pos c)),
          ok.1 last (omega (arith, high)),
        ))
  ]
    where
      either : (m n : ℕ) → (m ≤ n) ⊎ (n < m)
      either m n = omega arith

  Handed-of :
      (s : Source f base limit) (bytes k c : ℕ) (r : Option ℕ × FreeList.State f)
      → Reached f law base limit s
      → bytes + 8 ≤ 2 ^ k * 8
      → k ≤ 17
      → k ≤ c
      → c ≤ 18
      → Allocated f law s.list c r
      → let cell = to_range f base limit (2 ^ k) r in
        Handed f law base limit (cell.0, with_list s cell.1) bytes s.list
  unfolding Handed Allocated NoneFree range_of
  Handed-of s bytes k c (none, t) ok holds small le high (buddy, kept, absent) = (
    (buddy, λ x beyond. kept x ∙ ok.1 x beyond, ok.2),
    λ u. absent 18 u high (omega (arith, top)),
  )
  Handed-of s bytes k c (some unit, t) ok holds small le high shrunk =
      let inner : unit + 2 ^ c ≤ s.next * 2 ^ 18 = in_pages s t unit c ok shrunk in
      let units : unit + 2 ^ k ≤ limit * 2 ^ 18 = omega (arith, inner, pow_mono k c le, ok.2) in
      let bounds = cell_bounds base unit k (omega (arith, units, room)) in
      let size : 2 ^ (k + 3) ≡ 2 ^ k * 8 = pow-add k 3 in
      (
        (
          Shrunk.is_buddy shrunk,
          λ x beyond. omega (arith, Shrunk.covered shrunk x, ok.1 x beyond),
          ok.2,
        ),
        record {
          cell = base + unit * 8;
          log_size = k + 3;
          start-eq = omega (arith, bounds.0, units, room);
          end-eq = bounds.1 ∙ omega (arith, size);
          aligned =
              aligned_add (2 ^ (k + 3)) base (unit * 8)
                (aligned_weaken 21 (k + 3) base (omega (arith, small)) aligned)
                (scaled unit k (aligned_weaken c k unit le (Shrunk.aligned shrunk)));
          holds = omega (arith, holds, size);
          small = omega (arith, small);
          in_range = omega (arith, size, units, room);
        },
      )

  pub handed :
      (s : Source f base limit) (bytes : ℕ)
      → Reached f law base limit s
      → bytes % 8 ≡ 0
      → bytes + 8 ≤ 2 ^ 20
      → Handed f law base limit (allocate f base limit s bytes) bytes s.list
  unfolding allocate
  handed s bytes ok whole small =
      let n : ℕ = bytes / 8 + 1 in
      let k : ℕ = log_ceil n in
      let units = cell_units_lem bytes (omega (arith, small)) whole in
      let low : k ≤ 17 = log_ceil-le n 17 (omega (arith, small)) (omega (arith, small)) in
      let class : size_class f (cell_units bytes) ≡ max k f.min_size_class =
        ap (size_class f) units.0 ∙ size_class-pow f k (omega (arith, low)) in
      let c : ℕ = max k f.min_size_class in
      let high : c ≤ 18 = omega (arith, low, least) in
      subst
        (λ (x : Option AddressRange × FreeList.State f).
          Handed f law base limit (x.0, with_list s x.1) bytes s.list)
        (sym (
          allocate-eq f base limit s.list bytes
          ∙ ap
              (λ (d : ℕ).
                to_range f base limit (cell_units bytes) (allocate_aligned_units f s.list d))
              class
          ∙ ap (λ (u : ℕ). to_range f base limit u (allocate_aligned_units f s.list c)) units.0))
        (Handed-of s bytes k c (allocate_aligned_units f s.list c) ok units.1 low (omega arith) high
          (allocate_aligned_units_lem f law s.list c ok.0 (omega (arith, high, top))))
