-- ===== src/Buddy/Ranges.antt =====
-- Releasing a range of any length gives back exactly its units.
use native.Mathlib.Decide.{dec_le}
use native.Mathlib.Nat.{mod-eq_of_lt, mod_self, zero-mod, mul-mod_left, mod-lt, div-add-mod}
use malloc_kit.Base.{
  Option, none, some, bit_and, bit_not, wrapping_sub, ℕ, zero, suc, ◌+◌, ◌-◌, ◌*◌, ◌/◌, ◌%◌, ◌^◌,
  ◌≤◌, ◌<◌, ◌≡◌, ◌⊎◌, inl, inr, min, arith, refl, sym, ◌∙◌, ap, subst, true, false, leb, ltb, ◌&&◌,
  ◌==◌, if◌then◌else◌, Bool-cases, ==→eq, pow_pos, pow_mono, wrapping_add, ◌<<<◌, trailing_zeros,
  log_ceil, multiple_gap,
}
use malloc_kit.Powers.{exponent_le, pow-log_ceil_bounds, trailing_zeros-next_power_of_two}
use malloc_kit.Masks.{shift_one, and_high_mask}
use malloc_kit.Address.Align.{aligned_weaken, aligned_add}
use malloc_kit.Buddy.{
  FreeList, size_class, release_class, release_range, release_aligned_units,
  release_cell_unaligned_size, allocate_cell_unaligned_size, allocate_aligned_units, UnitRange,
}
use malloc_kit.Buddy.Cover.{inside, IsFreeList}
use malloc_kit.Buddy.Allocate.{
  IsBuddy, free_units, InUse, Grown, Shrunk, NoneFree, Allocated, allocate_aligned_units_lem,
}
use malloc_kit.Buddy.Release.{release_aligned_units_lem}
use malloc_kit.Buddy.Rounds.{
  trailing_zeros-divides, trailing_zeros-le, aligned_sub, round_down, round_down_lem, round_down-ge,
}

-- 1 on the units of a range, and 0 elsewhere.
unfoldable pub within : (start units x : ℕ) → ℕ
within start units x = if leb start x && ltb x (start + units) then 1 else 0

within-split :
    (start units class x : ℕ)
    → 2 ^ class ≤ units
    → within start units x ≡ inside start class x + within (start + 2 ^ class) (units - 2 ^ class) x
unfolding within inside
within-split start units class x le = ground (arith, le)

within-none : (start x : ℕ) → within start 0 x ≡ 0
unfolding within
within-none start x = ground arith

module _ (f : FreeList) (smallest : f.min_size_class ≤ 62) where
  size_class-eq :
      (units : ℕ)
      → 2 ^ f.min_size_class ≤ units
      → units ≤ 2 ^ 62
      → size_class f units ≡ log_ceil units
  unfolding size_class
  size_class-eq units some_units fits =
      let bounds =
        pow-log_ceil_bounds units (omega (arith, some_units, pow_pos f.min_size_class))
          (omega (arith, fits)) in
      omega (
        arith,
        trailing_zeros-next_power_of_two units (omega (arith, fits)),
        exponent_le f.min_size_class (log_ceil units) units some_units bounds.0,
      )

  -- The class of a round fits: its cell is aligned at the start, and is no longer than what is left.
  release_class_lem :
      (start units : ℕ)
      → 2 ^ f.min_size_class ≤ units
      → start % 2 ^ f.min_size_class ≡ 0
      → units ≤ 2 ^ 62
      → (start % 2 ^ release_class f start units ≡ 0)
        × (2 ^ release_class f start units ≤ units)
        × (release_class f start units ≤ 62)
        × (f.min_size_class ≤ release_class f start units)
  unfolding release_class round_down
  release_class_lem start units some_units whole fits = rw (size_class-eq units some_units fits) (
      of_class (round_down units (log_ceil units)) (trailing_zeros start)
        (round_down_lem units positive fits).0 (round_down_lem units positive fits).1
        (trailing_zeros-divides start) (round_down-ge units f.min_size_class some_units fits)
        (trailing_zeros-le start f.min_size_class (omega (arith, smallest)) whole))
    where
      positive : 1 ≤ units
      positive = omega (arith, some_units, pow_pos f.min_size_class)

      of_class :
          (prev tz : ℕ)
          → 2 ^ prev ≤ units
          → prev ≤ 62
          → start % 2 ^ tz ≡ 0
          → f.min_size_class ≤ prev
          → f.min_size_class ≤ tz
          → (start % 2 ^ min prev tz ≡ 0)
            × (2 ^ min prev tz ≤ units)
            × (min prev tz ≤ 62)
            × (f.min_size_class ≤ min prev tz)
      of_class prev tz le small divides low low' = (
        aligned_weaken tz (min prev tz) start (omega arith) divides,
        omega (arith, le, pow_mono (min prev tz) prev (omega arith)),
        omega (arith, small),
        omega (arith, low, low'),
      )

module _ (f : FreeList) (law : IsFreeList f) (smallest : f.min_size_class ≤ 62) where
  open f use {State, threshold, min_size_class}

  -- `after` has the units of a range more than `before`.
  pub record GrownRange (before after : State) (start units : ℕ) : Type 0 where
    pub is_buddy : IsBuddy f law after
    pub covered :
        (x : ℕ) → free_units f law after x ≡ free_units f law before x + within start units x

  -- The units of a range are all in use.
  unfoldable pub RangeInUse : State → (start units : ℕ) → Type 0
  RangeInUse s start units = (x : ℕ) → x < 2 ^ 64 → free_units f law s x + within start units x ≤ 1

  release_range_lem :
      (fuel : ℕ) (s : State) (start units : ℕ)
      → IsBuddy f law s
      → units ≤ fuel
      → start % 2 ^ min_size_class ≡ 0
      → units % 2 ^ min_size_class ≡ 0
      → units ≤ 2 ^ 62
      → units < 2 ^ suc threshold
      → start + units < 2 ^ 64
      → RangeInUse s start units
      → GrownRange s (release_range f fuel s start units) start units
  unfolding release_range InUse RangeInUse
  release_range_lem zero s start units buddy enough at_start whole small low fits used =
      nothing s start units buddy (omega (arith, enough))
    where
      nothing :
          (s : State) (start units : ℕ) → IsBuddy f law s → units ≡ 0 → GrownRange s s start units
      nothing s start units buddy e = record {
        is_buddy = buddy;
        covered =
            λ (x : ℕ). omega (arith, ap (λ (n : ℕ). within start n x) e ∙ within-none start x);
      }
  release_range_lem (suc fuel) s start units buddy enough at_start whole small low fits used =
      elim (none_left units) [
        | inl e ↦ rw (none_test units e) (nothing s start units buddy e)
        | inr more ↦
            let c : ℕ = release_class f start units in
            let one : 2 ^ min_size_class ≤ units = omega (
              arith,
              multiple_gap (2 ^ min_size_class) 0 units (zero-mod (2 ^ min_size_class)) whole more,
            ) in
            let class = release_class_lem f smallest start units one at_start small in
            let cell_whole : 2 ^ c % 2 ^ min_size_class ≡ 0 =
              aligned_weaken c min_size_class (2 ^ c) class.3 (mod_self (2 ^ c)) in
            let size : 2 ^ c ≤ units = class.1 in
            let c_low : c ≤ threshold = exponent_below c threshold (omega (arith, size, low)) in
            let shifted : 1 <<< c ≡ 2 ^ c = shift_one c (omega (arith, class.2)) in
            let grown =
              release_aligned_units_lem f law s start c buddy c_low class.0 (omega (arith, fits))
                (λ (x : ℕ) (h : x < 2 ^ 64).
                  omega (arith, used x h, within-split start units c x size)) in
            let t : State = release_aligned_units f s start c in
            let wraps : wrapping_add start (2 ^ c) ≡ start + 2 ^ c =
              mod-eq_of_lt (omega (arith, size, fits)) in
            let rest =
              release_range_lem fuel t (start + 2 ^ c) (units - 2 ^ c) (Grown.is_buddy grown)
                (omega (arith, enough, pow_pos c))
                (aligned_add (2 ^ min_size_class) start (2 ^ c) at_start cell_whole)
                (aligned_sub (2 ^ min_size_class) units (2 ^ c) size whole cell_whole)
                (omega (arith, small)) (omega (arith, low)) (omega (arith, fits, size))
                (λ (x : ℕ) (h : x < 2 ^ 64).
                  omega
                    (arith, used x h, within-split start units c x size, Grown.covered grown x)) in
            rw (positive units more, shifted, wraps)
              (record {
                is_buddy = GrownRange.is_buddy rest;
                covered = λ (x : ℕ). omega (
                  arith,
                  GrownRange.covered rest x,
                  Grown.covered grown x,
                  within-split start units c x size,
                );
              })
      ]
    where
      none_left : (n : ℕ) → (n ≡ 0) ⊎ (1 ≤ n)
      none_left n = omega arith

      positive : (n : ℕ) → 1 ≤ n → ltb 0 n ≡ true
      positive n h = ground (arith, h)

      none_test : (n : ℕ) → n ≡ 0 → ltb 0 n ≡ false
      none_test n h = ground (arith, h)

      exponent_below : (c b : ℕ) → 2 ^ c < 2 ^ suc b → c ≤ b
      exponent_below c b h = elim (dec_le c b) [
        | yes p ↦ p
        | no p ↦ absurd (omega (arith, pow_mono (suc b) c (omega arith), h))
      ]

      nothing :
          (s : State) (start units : ℕ) → IsBuddy f law s → units ≡ 0 → GrownRange s s start units
      nothing s start units buddy e = record {
        is_buddy = buddy;
        covered =
            λ (x : ℕ). omega (arith, ap (λ (n : ℕ). within start n x) e ∙ within-none start x);
      }

  -- Releasing a range of units that are all in use makes exactly these units free, and keeps the free cells aligned and
  -- disjoint. The range starts and ends at multiples of the smallest cell and is shorter than two of the largest cells.
  -- The smallest class is at most 62, and the range ends below 2^64.
  pub release_cell_unaligned_size_lem :
      (s : State) (start units : ℕ)
      → IsBuddy f law s
      → start % 2 ^ min_size_class ≡ 0
      → units % 2 ^ min_size_class ≡ 0
      → units ≤ 2 ^ 62
      → units < 2 ^ suc threshold
      → start + units < 2 ^ 64
      → RangeInUse s start units
      → GrownRange s (release_cell_unaligned_size f s start units) start units
  unfolding release_cell_unaligned_size
  release_cell_unaligned_size_lem s start units buddy at_start whole small low fits used =
      release_range_lem units s start units buddy (omega arith) at_start whole small low fits used

  -- The least multiple of the smallest cell that holds a number of units.
  unfoldable pub rounded : ℕ → ℕ
  rounded requested =
      (requested + (2 ^ min_size_class - 1)) / 2 ^ min_size_class * 2 ^ min_size_class

  -- What an allocation of a number of units may return: a range of that length, where a whole cell left the free units, or none
  -- where no cell is large enough.
  unfoldable pub UnalignedAllocated : State → ℕ → Option UnitRange × State → Type 0
  UnalignedAllocated s units (none, s') =
      IsBuddy f law s'
      × ((x : ℕ) → free_units f law s' x ≡ free_units f law s x)
      × NoneFree f law s (log_ceil units) (suc threshold)
  UnalignedAllocated s units (some range, s') =
      (range.end ≡ wrapping_add range.start units) × Shrunk f law s s' range.start (log_ceil units)

  release_nothing : (s : State) (start n : ℕ) → n ≡ 0 → release_cell_unaligned_size f s start n ≡ s
  unfolding release_cell_unaligned_size release_range
  release_nothing s start n e = rw e refl

  mask_rounds :
      (units : ℕ)
      → units ≤ 2 ^ 61
      → min_size_class ≤ 61
      → let mask = wrapping_sub (1 <<< min_size_class) 1 in
        bit_and (wrapping_add units mask) (bit_not mask) ≡ rounded units
  unfolding rounded
  mask_rounds units fits low =
      let k : ℕ = min_size_class in
      let bound : 2 ^ k ≤ 2 ^ 61 = pow_mono k 61 low in
      rw (mask k (omega (arith, low)), no_wrap units (2 ^ k) fits bound (pow_pos k))
        (and_high_mask k (units + (2 ^ k - 1)) (omega (arith, low)) (omega (arith, fits, bound)))
    where
      mask : (k : ℕ) → k < 64 → wrapping_sub (1 <<< k) 1 ≡ 2 ^ k - 1
      mask k h = omega (arith, shift_one k h, pow_pos k, pow_mono k 63 (omega (arith, h)))

      no_wrap : (n d : ℕ) → n ≤ 2 ^ 61 → d ≤ 2 ^ 61 → 1 ≤ d → wrapping_add n (d - 1) ≡ n + (d - 1)
      no_wrap n d h k one = omega (arith, h, k, one)

  rounded_lem :
      (units : ℕ)
      → 1 ≤ units
      → units ≤ 2 ^ 61
      → min_size_class ≤ 61
      → (2 ^ min_size_class ≤ rounded units) × (rounded units ≤ 2 ^ 62)
  unfolding rounded
  rounded_lem units some_units fits low =
      let d : ℕ = 2 ^ min_size_class in
      let n : ℕ = units + (d - 1) in
      let parts = div-add-mod n d in
      let rest : n % d < d = mod-lt n {m = d} (pow_pos min_size_class) in
      let bound : d ≤ 2 ^ 61 = pow_mono min_size_class 61 low in
      (
        omega (
          arith,
          multiple_gap d 0 (n / d * d) (zero-mod d) (mul-mod_left (n / d) d)
              (omega (arith, parts, rest, some_units)),
        ),
        omega (arith, parts, fits, bound),
      )

  -- The end of the function, from what the allocation of the cell returned.
  unfoldable finish : (units class : ℕ) → Option ℕ × State → Option UnitRange × State
  finish units class r = elim r.0 [
    | none ↦ (none, r.1)
    | some start ↦ (
      some (record { start = start; end = wrapping_add start units }),
      if units == (1 <<< class)
          then release_cell_unaligned_size f r.1 (wrapping_add start units)
              (wrapping_sub (1 <<< class) units)
          else r.1,
    )
  ]

  finish_lem :
      (s : State) (units : ℕ)
      → units ≤ 2 ^ 62
      → (r : Option ℕ × State) → Allocated f law s (log_ceil units) r
      → UnalignedAllocated s units (finish units (log_ceil units) r)
  unfolding Allocated UnalignedAllocated finish
  finish_lem s units fits (none, s') (kept, covered, absent) = (kept, covered, absent)
  finish_lem s units fits (some start, s') shrunk =
      elim (Bool-cases (units == (1 <<< log_ceil units))) [
        | inl same ↦ rw (same, empty (==→eq units (1 <<< log_ceil units) same)) (refl, shrunk)
        | inr other ↦ rw other (refl, shrunk)
      ]
    where
      nothing_left : (n : ℕ) → n ≤ 2 ^ 62 → wrapping_sub n n ≡ 0
      nothing_left n h = omega (arith, h)

      empty :
          units ≡ 1 <<< log_ceil units
          → release_cell_unaligned_size f s'
              (wrapping_add start units)
              (wrapping_sub (1 <<< log_ceil units) units)
            ≡ s'
      empty e =
          release_nothing s' (wrapping_add start units) (wrapping_sub (1 <<< log_ceil units) units)
            (subst (λ (n : ℕ). wrapping_sub n units ≡ 0) e (nothing_left units fits))

  -- An allocation rounds a number of units up to a multiple of the smallest cell and returns a range of that length;
  -- every unit of the cell of the next power of two leaves the free units, also those behind the range. It returns
  -- nothing only when no cell of that size or larger is free, with the free units kept. The class of the request is at
  -- most the largest. The request is 1 to 2^61, and the smallest class at most 61.
  pub allocate_cell_unaligned_size_lem :
      (s : State) (requested : ℕ)
      → IsBuddy f law s
      → 1 ≤ requested
      → requested ≤ 2 ^ 61
      → min_size_class ≤ 61
      → log_ceil (rounded requested) ≤ threshold
      → UnalignedAllocated s (rounded requested) (allocate_cell_unaligned_size f s requested)
  unfolding allocate_cell_unaligned_size finish
  allocate_cell_unaligned_size_lem s requested buddy some_units small few low =
      let bounds = rounded_lem requested some_units small few in
      subst
        (λ (n : ℕ).
          UnalignedAllocated s (rounded requested)
            (finish n (size_class f n) (allocate_aligned_units f s (size_class f n))))
        (sym (mask_rounds requested small few))
        (subst
          (λ (c : ℕ).
            UnalignedAllocated s (rounded requested)
              (finish (rounded requested) c (allocate_aligned_units f s c)))
          (sym (size_class-eq f smallest (rounded requested) bounds.0 bounds.1))
          (finish_lem s (rounded requested) bounds.1
            (allocate_aligned_units f s (log_ceil (rounded requested)))
            (allocate_aligned_units_lem f law s (log_ceil (rounded requested)) buddy low)))
