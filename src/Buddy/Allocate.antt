-- ===== src/Buddy/Allocate.antt =====
-- Allocation from the buddy allocator takes one aligned cell out of the free units.
use malloc_kit.Base.{
  ℕ, zero, suc, ◌+◌, ◌-◌, ◌%◌, ◌^◌, ◌≤◌, ◌<◌, ◌≡◌, arith, refl, ap, sym, ◌∙◌, ◌⊎◌, inl, inr, Option,
  none, some, subst, ge→ltb,
}
use malloc_kit.Buddy.{
  FreeList, push, pop, split_down, search_classes, allocate_aligned_units_slow,
  allocate_aligned_units,
}
use malloc_kit.Buddy.Cover.{
  inside, cover, Same, IsFreeList, IsTidy, Popped, cover-Same, cover-Added,
}
use malloc_kit.Buddy.Tidy.{
  inside-halves, inside-start, free_at-cover, Taken, take-IsTidy, add-IsTidy, Same-IsTidy,
}
use malloc_kit.Buddy.Units.{sibling_of_parent}
use malloc_kit.Address.Align.{aligned_weaken}

module _ (f : FreeList) (law : IsFreeList f) where
  open f use {State, threshold}
  open law use {Valid, free_at}

  -- The free cells of a state are a set of disjoint aligned blocks.
  pub record IsBuddy (s : State) : Type 0 where
    pub valid : Valid s
    pub tidy : IsTidy (suc threshold) (free_at s)

  -- How many free cells hold a unit.
  unfoldable pub free_units : State → ℕ → ℕ
  free_units s x = cover (suc threshold) (free_at s) x

  -- The units of an aligned cell are all in use.
  unfoldable pub InUse : State → (unit size_class : ℕ) → Type 0
  InUse s unit size_class = (x : ℕ) → x < 2 ^ 64 → free_units s x + inside unit size_class x ≤ 1

  -- `after` has the units of one cell more than `before`.
  pub record Grown (before after : State) (unit size_class : ℕ) : Type 0 where
    pub is_buddy : IsBuddy after
    pub covered : (x : ℕ) → free_units after x ≡ free_units before x + inside unit size_class x

  -- A unit that no free cell holds is at the start of none.
  pub nowhere_free :
      (s : State) (unit : ℕ)
      → IsBuddy s
      → unit < 2 ^ 64
      → free_units s unit ≡ 0
      → (c : ℕ) → free_at s c unit ≡ 0
  unfolding free_units
  nowhere_free s unit buddy fits covered c = elim (none_there (free_at s c unit)) [
    | inl absent ↦ absent
    | inr there ↦ absurd (
        omega (
          arith,
          covered,
          free_at-cover (suc threshold) (free_at s) c unit
              (IsTidy.in_range buddy.tidy c unit there).0 (IsTidy.aligned buddy.tidy c unit there),
        ))
  ]
    where
      none_there : (n : ℕ) → (n ≡ 0) ⊎ (1 ≤ n)
      none_there n = omega arith

  pub push-IsBuddy :
      (s : State) (unit size_class : ℕ)
      → IsBuddy s
      → size_class ≤ threshold
      → unit % 2 ^ size_class ≡ 0
      → unit < 2 ^ 64
      → InUse s unit size_class
      → Grown s (push f s unit size_class) unit size_class
  unfolding InUse free_units
  push-IsBuddy s unit k buddy low aligned fits used =
      let absent =
        nowhere_free s unit buddy fits (omega (arith, used unit fits, inside-start unit k)) in
      let (valid, added) = law.push_law s unit k buddy.valid low absent in
      record {
        is_buddy = record {
          valid = valid;
          tidy =
              add-IsTidy (suc threshold) (free_at s) (free_at (push f s unit k)) k unit buddy.tidy
                added (omega arith) aligned fits used;
        };
        covered =
            cover-Added (suc threshold) (free_at s) (free_at (push f s unit k)) k unit added
              (omega arith) aligned;
      }

  -- The splitting loop gives back all of the cell but its first part.
  split_down_lem :
      (s : State) (unit request rounds : ℕ)
      → IsBuddy s
      → request + rounds ≤ threshold
      → unit % 2 ^ (request + rounds) ≡ 0
      → unit < 2 ^ 64
      → InUse s unit (request + rounds)
      → let s' = split_down f s unit request rounds in
        IsBuddy s'
        × ((x : ℕ)
            → free_units s x + inside unit (request + rounds) x
              ≡ free_units s' x + inside unit request x)
  unfolding split_down free_units InUse
  split_down_lem s unit request zero buddy low aligned fits used =
      (buddy, λ (x : ℕ). ap (λ (k : ℕ). free_units s x + inside unit k x) (add_zero request))
    where
      add_zero : (n : ℕ) → n + 0 ≡ n
      add_zero n = omega arith
  split_down_lem s unit request (suc rounds) buddy low aligned fits used =
      let child : ℕ = request + rounds in
      let class : request + suc rounds ≡ suc child = omega arith in
      let (other, here, there, room) =
        sibling_of_parent unit child (omega (arith, low, law.few_classes)) fits
          (rw class at aligned) in
      let t : State = f.split_cell s unit (suc child) in
      let halves : (x : ℕ)
          → inside unit (request + suc rounds) x
            ≡ inside unit child x + inside (unit + 2 ^ child) child x =
        λ (x : ℕ). rw class (inside-halves unit child x) in
      let taken : (u : ℕ)
          → u < 2 ^ 64
          → 1 ≤ inside unit child u + inside (unit + 2 ^ child) child u
          → (c : ℕ) → free_at s c u ≡ 0 =
        λ (u : ℕ) (h : u < 2 ^ 64)
            (within : 1 ≤ inside unit child u + inside (unit + 2 ^ child) child u).
          nowhere_free s u buddy h (omega (arith, used u h, halves u, within)) in
      let (valid, same) =
        law.split_law s unit child buddy.valid
          (taken unit fits (omega (arith, inside-start unit child)))
          (rw other (
            taken (unit + 2 ^ child) room
              (omega (arith, inside-start (unit + 2 ^ child) child)))) in
      let unchanged : (x : ℕ) → free_units t x ≡ free_units s x =
        cover-Same (suc threshold) (free_at s) (free_at t) same in
      let split : IsBuddy t = record {
        valid = valid;
        tidy = Same-IsTidy (suc threshold) (free_at s) (free_at t) buddy.tidy same;
      } in
      let grown : Grown t (push f t (unit + 2 ^ child) child) (unit + 2 ^ child) child =
        push-IsBuddy t (unit + 2 ^ child) child split (omega (arith, low)) there room
          (λ (x : ℕ) (h : x < 2 ^ 64). omega (arith, unchanged x, halves x, used x h)) in
      let t' : State = push f t (unit + 2 ^ child) child in
      let (rest, covered) =
        split_down_lem t' unit request rounds (Grown.is_buddy grown) (omega (arith, low)) here fits
          (λ (x : ℕ) (h : x < 2 ^ 64).
            omega (arith, unchanged x, halves x, used x h, Grown.covered grown x)) in
      rw other
        (rest, λ (x : ℕ). omega (arith, unchanged x, halves x, Grown.covered grown x, covered x))

  -- `after` has the units of one aligned cell less than `before`.
  pub record Shrunk (before after : State) (unit size_class : ℕ) : Type 0 where
    pub is_buddy : IsBuddy after
    pub aligned : unit % 2 ^ size_class ≡ 0
    pub fits : unit < 2 ^ 64
    pub covered : (x : ℕ) → free_units before x ≡ free_units after x + inside unit size_class x

  -- No free cell of a class from `low` to below `high`.
  unfoldable pub NoneFree : State → (low high : ℕ) → Type 0
  NoneFree s low high = (c u : ℕ) → low ≤ c → c < high → free_at s c u ≡ 0

  -- What an allocation returns.
  unfoldable pub Allocated : State → ℕ → Option ℕ × State → Type 0
  Allocated s request (none, s') =
      IsBuddy s' × ((x : ℕ) → free_units s' x ≡ free_units s x) × NoneFree s request (suc threshold)
  Allocated s request (some unit, s') = Shrunk s s' unit request

  -- What `pop` of class `request + offset` leads to in the search.
  unfoldable Found : State → (request offset : ℕ) → Option ℕ × State → Type 0
  Found s request offset (none, s') =
      IsBuddy s' × Same (free_at s) (free_at s') × ((u : ℕ) → free_at s (request + offset) u ≡ 0)
  Found s request offset (some unit, s') =
      Shrunk s (split_down f s' unit request offset) unit request

  pop_lem :
      (s : State) (request offset : ℕ)
      → IsBuddy s
      → request + offset ≤ threshold
      → (r : Option ℕ × State) → Popped Valid free_at s (request + offset) r
      → Found s request offset r
  unfolding Popped Found InUse free_units
  pop_lem s request offset buddy low (none, s') (valid, same, absent) = (
    record {
      valid = valid;
      tidy = Same-IsTidy (suc threshold) (free_at s) (free_at s') buddy.tidy same;
    },
    same,
    absent,
  )
  pop_lem s request offset buddy low (some unit, s') (valid, added) =
      let k : ℕ = request + offset in
      let taken : Taken (suc threshold) (free_at s) (free_at s') k unit =
        take-IsTidy (suc threshold) (free_at s) (free_at s') k unit buddy.tidy added in
      let rest : IsBuddy s' = record { valid = valid; tidy = Taken.tidy taken } in
      let (done, covered) =
        split_down_lem s' unit request offset rest low (Taken.aligned taken) (Taken.fits taken)
          (λ (x : ℕ) (h : x < 2 ^ 64).
            omega (arith, Taken.covered taken x, IsTidy.disjoint buddy.tidy x h)) in
      record {
        is_buddy = done;
        aligned = aligned_weaken k request unit (omega arith) (Taken.aligned taken);
        fits = Taken.fits taken;
        covered = λ (x : ℕ). omega (arith, Taken.covered taken x, covered x);
      }

  -- An allocation from a state with the same free cells is one from the first state.
  Same-Allocated :
      (s s' : State) (request : ℕ) (r : Option ℕ × State)
      → Same (free_at s) (free_at s')
      → Allocated s' request r
      → Allocated s request r
  unfolding Allocated Same NoneFree free_units
  Same-Allocated s s' request (none, t) same (buddy, covered, absent) =
      let equal = cover-Same (suc threshold) (free_at s) (free_at s') same in
      (
        buddy,
        λ (x : ℕ). covered x ∙ equal x,
        λ (c u : ℕ) (low : request ≤ c) (high : c < suc threshold).
            sym (same c u) ∙ absent c u low high,
      )
  Same-Allocated s s' request (some unit, t) same shrunk =
      let equal = cover-Same (suc threshold) (free_at s) (free_at s') same in
      record {
        is_buddy = Shrunk.is_buddy shrunk;
        aligned = Shrunk.aligned shrunk;
        fits = Shrunk.fits shrunk;
        covered = λ (x : ℕ). sym (equal x) ∙ Shrunk.covered shrunk x;
      }

  NoneFree-suc :
      (s s' : State) (low high : ℕ)
      → Same (free_at s) (free_at s')
      → NoneFree s low high
      → ((u : ℕ) → free_at s high u ≡ 0)
      → NoneFree s' low (suc high)
  unfolding NoneFree Same
  NoneFree-suc s s' low high same below here c u at_least under = same c u ∙ elim (split under) [
    | inl less ↦ below c u at_least less
    | inr top ↦ ap (λ (k : ℕ). free_at s k u) top ∙ here u
  ]
    where
      split : c < suc high → (c < high) ⊎ (c ≡ high)
      split h = omega arith

  search_lem :
      (s : State) (request offset left : ℕ)
      → IsBuddy s
      → request + offset + left ≡ suc threshold
      → NoneFree s request (request + offset)
      → Allocated s request (search_classes f s request offset left)
  unfolding search_classes Allocated Found
  search_lem s request offset zero buddy total absent =
      (buddy, λ (x : ℕ). refl, rw total at (rw (add_zero (request + offset)) at absent))
    where
      add_zero : (n : ℕ) → n ≡ n + 0
      add_zero n = omega arith
  search_lem s request offset (suc left) buddy total absent =
      continue
        (λ (t : State) (rest : IsBuddy t) (none_free : NoneFree t request (request + suc offset)).
          search_lem t request (suc offset) left rest (omega (arith, total)) none_free)
        (pop f s (request + offset))
        (pop_lem s request offset buddy (omega (arith, total)) _
          (law.pop_law s (request + offset) buddy.valid (omega (arith, total))))
    where
      next_offset : request + suc offset ≡ suc (request + offset)
      next_offset = omega arith

      continue :
          ((t : State)
            → IsBuddy t
            → NoneFree t request (request + suc offset)
            → Allocated t request (search_classes f t request (suc offset) left))
          → (r : Option ℕ × State) → Found s request offset r
          → let (found, s') = r in
            let further = search_classes f s' request (suc offset) left in
            Allocated s request (elim found [
              | none ↦ further
              | some unit ↦ (some unit, split_down f s' unit request offset)
            ])
      continue further (none, s') (rest, same, here) =
          Same-Allocated s s' request (search_classes f s' request (suc offset) left) same (
            further s' rest
              (rw next_offset (NoneFree-suc s s' request (request + offset) same absent here)))
      continue further (some unit, s') shrunk = shrunk

  slow_lem :
      (s : State) (request : ℕ)
      → IsBuddy s
      → request ≤ threshold
      → Allocated s request (allocate_aligned_units_slow f s request)
  unfolding allocate_aligned_units_slow NoneFree
  slow_lem s request buddy low =
      search_lem s request 0 (suc threshold - request) buddy (omega (arith, low))
        (λ (c u : ℕ) (from : request ≤ c) (to : c < request + 0).
          absurd (impossible request c from to))
    where
      impossible : (n c : ℕ) → n ≤ c → c < n + 0 → ⊥
      impossible n c h h' = omega arith

  -- Allocating a cell of class `request` from disjoint aligned free cells returns a unit that is aligned to
  -- the class, all of whose units were free; afterwards exactly these are no longer free, and
  -- the free cells are disjoint and aligned again. It fails only when no cell of the class or of a larger one is
  -- free, and leaves the free units as they were.
  pub allocate_aligned_units_lem :
      (s : State) (request : ℕ)
      → IsBuddy s
      → request ≤ threshold
      → Allocated s request (allocate_aligned_units f s request)
  unfolding allocate_aligned_units Allocated Found split_down
  allocate_aligned_units_lem s request buddy low = rw (ge→ltb threshold request low) (
      continue (pop f s request) (
        pop_lem s request 0 buddy (omega (arith, low)) (pop f s request) (
          subst (λ (k : ℕ). Popped Valid free_at s k (pop f s request)) (add_zero request)
            (law.pop_law s request buddy.valid low))))
    where
      add_zero : (n : ℕ) → n ≡ n + 0
      add_zero n = omega arith

      continue :
          (r : Option ℕ × State)
          → Found s request 0 r
          → let (found, s') = r in
            Allocated s request (elim found [
              | none ↦ allocate_aligned_units_slow f s' request
              | some unit ↦ (some unit, s')
            ])
      continue (none, s') (rest, same, here) =
          Same-Allocated s s' request (allocate_aligned_units_slow f s' request) same
            (slow_lem s' request rest low)
      continue (some unit, s') shrunk = shrunk
