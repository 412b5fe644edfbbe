-- ===== src/Buddy/Release.antt =====
-- Releasing a cell to the buddy allocator gives its units back, however far it is merged.
use malloc_kit.Base.{
  ℕ, zero, suc, ◌+◌, ◌-◌, ◌%◌, ◌^◌, ◌≤◌, ◌<◌, ◌≡◌, arith, ap, refl, true, false, ltb, ◌&&◌,
  if◌then◌else◌, Bool, some, subst,
}
use malloc_kit.Buddy.{
  FreeList, remove, release_loop, release_aligned_units, allocate_aligned_units, parent, sibling,
}
use malloc_kit.Buddy.Cover.{inside, IsFreeList, IsTidy}
use malloc_kit.Buddy.Tidy.{inside-halves, Taken, take-IsTidy}
use malloc_kit.Buddy.Units.{Half, first, second, Half-of_aligned}
use malloc_kit.Buddy.Allocate.{
  IsBuddy, free_units, InUse, Grown, push-IsBuddy, Allocated, Shrunk, allocate_aligned_units_lem,
}

-- The cell of a class and its sibling make up the parent.
record Siblings (unit c : ℕ) : Type 0 where
  aligned : parent unit c % 2 ^ suc c ≡ 0
  fits : parent unit c < 2 ^ 64
  halves :
      (x : ℕ) → inside (parent unit c) (suc c) x ≡ inside unit c x + inside (sibling unit c) c x

Siblings-of_Half : (unit c : ℕ) → unit < 2 ^ 64 → Half unit c → Siblings unit c
Siblings-of_Half unit c fits (first aligned other whole) = record {
  aligned = rw whole aligned;
  fits = rw whole fits;
  halves = λ (x : ℕ). rw (whole, other) (inside-halves unit c x);
}
Siblings-of_Half unit c fits (second room aligned other whole) = record {
  aligned = rw whole aligned;
  fits = omega (arith, whole);
  halves = λ (x : ℕ). rw (whole, other) (turn x (inside-halves (unit - 2 ^ c) c x));
}
  where
    back : unit - 2 ^ c + 2 ^ c ≡ unit
    back = omega (arith, room)

    turn :
        (x : ℕ)
        → inside (unit - 2 ^ c) (suc c) x
          ≡ inside (unit - 2 ^ c) c x + inside (unit - 2 ^ c + 2 ^ c) c x
        → inside (unit - 2 ^ c) (suc c) x ≡ inside unit c x + inside (unit - 2 ^ c) c x
    turn x h = omega (arith, h, ap (λ (u : ℕ). inside u c x) back)

module _ (f : FreeList) (law : IsFreeList f) where
  open f use {State, threshold, is_free}
  open law use {Valid, free_at}

  -- Merging with the sibling and releasing the parent adds the units of the cell.
  merge_lem :
      (s : State) (unit c : ℕ) (result : State)
      → IsBuddy f law s
      → c < threshold
      → unit % 2 ^ c ≡ 0
      → unit < 2 ^ 64
      → InUse f law s unit c
      → is_free s (sibling unit c) c ≡ true
      → (let t = remove f s (sibling unit c) c in
          IsBuddy f law t
          → parent unit c % 2 ^ suc c ≡ 0
          → parent unit c < 2 ^ 64
          → InUse f law t (parent unit c) (suc c)
          → Grown f law t result (parent unit c) (suc c))
      → Grown f law s result unit c
  unfolding InUse free_units
  merge_lem s unit c result buddy low aligned fits used free merge =
      let sib : ℕ = sibling unit c in
      let t : State = remove f s sib c in
      let (valid, added) =
        law.remove_law s sib c (IsBuddy.valid buddy)
          (law.is_free_law s sib c (IsBuddy.valid buddy) (omega (arith, low)) free) in
      let taken : Taken (suc threshold) (free_at s) (free_at t) c sib =
        take-IsTidy (suc threshold) (free_at s) (free_at t) c sib (IsBuddy.tidy buddy) added in
      let pair : Siblings unit c =
        Siblings-of_Half unit c fits
          (Half-of_aligned unit c (omega (arith, law.few_classes)) fits aligned) in
      let grown =
        merge (record { valid = valid; tidy = Taken.tidy taken }) (Siblings.aligned pair)
          (Siblings.fits pair)
          (λ (x : ℕ) (h : x < 2 ^ 64).
            omega (arith, used x h, Taken.covered taken x, Siblings.halves pair x)) in
      record {
        is_buddy = Grown.is_buddy grown;
        covered = λ (x : ℕ).
            omega (arith, Grown.covered grown x, Taken.covered taken x, Siblings.halves pair x);
      }

  release_loop_lem :
      (fuel : ℕ) (s : State) (unit c : ℕ)
      → IsBuddy f law s
      → c + fuel ≡ threshold
      → unit % 2 ^ c ≡ 0
      → unit < 2 ^ 64
      → InUse f law s unit c
      → Grown f law s (release_loop f fuel s unit c) unit c
  unfolding release_loop
  release_loop_lem zero s unit c buddy total aligned fits used =
      push-IsBuddy f law s unit c buddy (omega (arith, total)) aligned fits used
  release_loop_lem (suc fuel) s unit c buddy total aligned fits used =
      let low : c < threshold = omega (arith, total) in
      choose (ltb c threshold && is_free s (sibling unit c) c)
        (λ (h : (ltb c threshold && is_free s (sibling unit c) c) ≡ true).
          merge_lem s unit c
            (release_loop f fuel (remove f s (sibling unit c) c) (parent unit c) (suc c)) buddy low
            aligned fits used (and_second (ltb c threshold) (is_free s (sibling unit c) c) h)
            (λ b a' f' u'.
              release_loop_lem fuel (remove f s (sibling unit c) c) (parent unit c) (suc c) b
                (omega (arith, total)) a' f' u'))
        (push-IsBuddy f law s unit c buddy (omega (arith, total)) aligned fits used)
    where
      and_second : (a b : Bool) → (a && b) ≡ true → b ≡ true
      and_second a b h = ground (arith, h)

      choose :
          (test : Bool) {merged pushed : State}
          → (test ≡ true → Grown f law s merged unit c)
          → Grown f law s pushed unit c
          → Grown f law s (if test then merged else pushed) unit c
      choose true = λ yes no. yes refl
      choose false = λ yes no. no

  -- Releasing an aligned cell whose units are all in use makes exactly these units free, whether or not the
  -- cell is merged with free siblings, and keeps the free cells aligned and disjoint.
  pub release_aligned_units_lem :
      (s : State) (unit c : ℕ)
      → IsBuddy f law s
      → c ≤ threshold
      → unit % 2 ^ c ≡ 0
      → unit < 2 ^ 64
      → InUse f law s unit c
      → Grown f law s (release_aligned_units f s unit c) unit c
  unfolding release_aligned_units
  release_aligned_units_lem s unit c buddy low aligned fits used =
      release_loop_lem (threshold - c) s unit c buddy (omega (arith, low)) aligned fits used

  -- Releasing what an allocation returned restores the free units.
  pub release-allocate :
      (s s' : State) (unit request : ℕ)
      → IsBuddy f law s
      → request ≤ threshold
      → allocate_aligned_units f s request ≡ (some unit, s')
      → let s'' = release_aligned_units f s' unit request in
        IsBuddy f law s'' × ((x : ℕ) → free_units f law s'' x ≡ free_units f law s x)
  unfolding InUse Allocated free_units
  release-allocate s s' unit request buddy low eq =
      let shrunk : Shrunk f law s s' unit request =
        subst (Allocated f law s request) eq
          (allocate_aligned_units_lem f law s request buddy low) in
      let covered = Shrunk.covered shrunk in
      let grown =
        release_aligned_units_lem s' unit request (Shrunk.is_buddy shrunk) low
          (Shrunk.aligned shrunk) (Shrunk.fits shrunk)
          (λ (x : ℕ) (h : x < 2 ^ 64).
            omega (arith, covered x, IsTidy.disjoint (IsBuddy.tidy buddy) x h)) in
      (Grown.is_buddy grown, λ (x : ℕ). omega (arith, Grown.covered grown x, covered x))
