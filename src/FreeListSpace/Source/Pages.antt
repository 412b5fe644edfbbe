-- ===== src/FreeListSpace/Source/Pages.antt =====
-- A page that is added to the free list of `FreeListAllocator` serves a request, and with its pages the source keeps its laws.
use native.Mathlib.Nat.{mod-eq_of_lt, mod-lt}
use malloc_kit.Base.{
  ℕ, zero, suc, ◌+◌, ◌*◌, ◌/◌, ◌%◌, ◌^◌, ◌≤◌, ◌<◌, ◌≡◌, ◌⊎◌, inl, inr, arith, refl, sym, ◌∙◌, subst,
  Bool-cases, ◌==◌, true, Option, none, some, ltb, ltb→lt, ◌<<<◌,
}
use malloc_kit.Address.{Address}
use malloc_kit.Buddy.{
  FreeList, size_class, push, release_aligned_units, release_cell_aligned_size, release_loop,
}
use malloc_kit.Buddy.Cover.{inside, single, sum_below, cover, Added, IsFreeList, IsTidy}
use malloc_kit.Buddy.Allocate.{IsBuddy, free_units, InUse, Grown, nowhere_free}
use malloc_kit.Buddy.Release.{release_aligned_units_lem}
use malloc_kit.Intrusive
use malloc_kit.Intrusive.{
  AddressRange, unit_to_cell, cell_to_unit, process_input_units, cell_units, range_of,
}
use malloc_kit.Intrusive.Laws.{size_class-pow}
use malloc_kit.FreeListSpace.Laws.{IsCellSource}
use malloc_kit.FreeListSpace.Source.{
  Source, fresh_source, allocate, add, next_page, Reached, Handed,
}
use malloc_kit.FreeListSpace.Source.Cells.{handed}

before_cell : (unit c x : ℕ) → x < unit → inside unit c x ≡ 0
unfolding inside
before_cell unit c x low = ground (arith, low)

inside-le : (unit c x : ℕ) → inside unit c x ≤ 1
unfolding inside
inside-le unit c x = ground arith

behind_cell : (unit c x : ℕ) → unit + 2 ^ c ≤ x → inside unit c x ≡ 0
unfolding inside
behind_cell unit c x high = ground (arith, high)

pub same_address : (a : Address) → (a == a) ≡ true
same_address a = ground arith

sum_below-zero : (n : ℕ) (g : ℕ → ℕ) → ((c : ℕ) → g c ≡ 0) → sum_below n g ≡ 0
unfolding sum_below
sum_below-zero zero g absent = refl
sum_below-zero (suc n) g absent = omega (arith, absent n, sum_below-zero n g absent)

module _ (f : FreeList) (law : IsFreeList f) (base limit : ℕ) (top : f.threshold ≡ 18)
    (least : f.min_size_class ≤ 18) (aligned : base % 2 ^ 21 ≡ 0)
    (room : base + limit * 2 ^ 21 ≤ 2 ^ 62) where
  free_units-empty :
      (l : FreeList.State f)
      → ((c u : ℕ) → law.free_at l c u ≡ 0)
      → (x : ℕ) → free_units f law l x ≡ 0
  unfolding free_units cover
  free_units-empty l empty x =
      sum_below-zero (suc f.threshold) (λ (c : ℕ). law.free_at l c (x / 2 ^ c * 2 ^ c))
        (λ c. empty c (x / 2 ^ c * 2 ^ c))

  -- A list without free cells is a start.
  pub empty-Reached :
      (s : Source f base limit)
      → law.Valid s.list
      → ((c u : ℕ) → law.free_at s.list c u ≡ 0)
      → s.next ≤ limit
      → Reached f law base limit s
  unfolding free_units
  empty-Reached s valid empty le = (
    record {
      valid = valid;
      tidy = record {
        aligned = λ (c u : ℕ) there. absurd (omega (arith, there, empty c u));
        in_range = λ (c u : ℕ) there. absurd (omega (arith, there, empty c u));
        disjoint = λ (x : ℕ) small. omega (arith, free_units-empty s.list empty x);
      };
    },
    λ x beyond. free_units-empty s.list empty x,
    le,
  )

  -- A state with a fresh page added serves any request.
  abbrev Ready : Source f base limit → Type 0
  Ready t =
      Reached f law base limit t
      × ((bytes : ℕ)
          → bytes % 8 ≡ 0
          → bytes + 8 ≤ 2 ^ 20
          → (r : AddressRange) × (t' : Source f base limit) × (allocate f base limit t bytes
              ≡ (some r, t')))

  serves :
      (t : Source f base limit) (unit bytes : ℕ)
      → Reached f law base limit t
      → 1 ≤ law.free_at t.list 18 unit
      → bytes % 8 ≡ 0
      → bytes + 8 ≤ 2 ^ 20
      → (r : AddressRange) × (t' : Source f base limit) × (allocate f base limit t bytes
          ≡ (some r, t'))
  unfolding Handed
  serves t unit bytes ok there whole small =
      by_result (allocate f base limit t bytes) refl
        (handed f law base limit top least aligned room t bytes ok whole small)
    where
      by_result :
          (r : Option AddressRange × Source f base limit)
          → allocate f base limit t bytes ≡ r
          → Handed f law base limit r bytes t.list
          → (range : AddressRange) × (t' : Source f base limit) × (allocate f base limit t bytes
              ≡ (some range, t'))
      by_result (some range, t') eq h = (range, t', eq)
      by_result (none, t') eq (kept, absent) = absurd (omega (arith, absent unit, there))

  page_unit : (n : ℕ) → n < limit → cell_to_unit base (base + n * 2 ^ 21) ≡ n * 2 ^ 18
  unfolding cell_to_unit
  page_unit n h = omega (arith, h, room)

  page_units : process_input_units (1 <<< 21) ≡ 2 ^ 18
  unfolding process_input_units
  page_units = refl

  -- A page is added as one cell of the largest class.
  add_units-eq :
      (l : FreeList.State f) (n : ℕ)
      → n < limit
      → Intrusive.add_units f base l (base + n * 2 ^ 21) (1 <<< 21)
        ≡ release_aligned_units f l (n * 2 ^ 18) 18
  unfolding Intrusive.add_units release_cell_aligned_size
  add_units-eq l n h = rw (page_unit n h, page_units, class) refl
    where
      class : size_class f (2 ^ 18) ≡ 18
      class = size_class-pow f 18 (omega arith) ∙ omega (arith, least)

  release-push :
      (l : FreeList.State f) (unit : ℕ) → release_aligned_units f l unit 18 ≡ push f l unit 18
  unfolding release_aligned_units release_loop
  release-push l unit = rw top refl

  single_self : (c u : ℕ) → single c u c u ≡ 1
  unfolding single
  single_self c u = ground arith

  push_there :
      (l : FreeList.State f) (unit : ℕ)
      → IsBuddy f law l
      → unit < 2 ^ 64
      → free_units f law l unit ≡ 0
      → 1 ≤ law.free_at (push f l unit 18) 18 unit
  unfolding Added
  push_there l unit buddy fits none_there =
      let absent = nowhere_free f law l unit buddy fits none_there in
      let pushed = law.push_law l unit 18 (IsBuddy.valid buddy) (omega (arith, top)) absent in
      omega (arith, pushed.1 18 unit, single_self 18 unit)

  at_most_one :
      (l : FreeList.State f) → IsBuddy f law l → (x : ℕ) → x < 2 ^ 64 → free_units f law l x ≤ 1
  unfolding free_units
  at_most_one l buddy x small = IsTidy.disjoint (IsBuddy.tidy buddy) x small

  added :
      (s : Source f base limit)
      → Reached f law base limit s
      → s.next < limit
      → Ready (
          add f base limit
            (record { list = s.list; next = suc s.next; contents = s.contents })
            (base + s.next * 2 ^ 21)
            (1 <<< 21))
  unfolding add InUse
  added s (buddy, fresh, le) more =
      rw (add_units-eq s.list s.next more)
        ((reached, λ bytes whole small. serves t unit bytes reached there whole small))
    where
      unit : ℕ
      unit = s.next * 2 ^ 18

      t : Source f base limit
      t = record {
        list = release_aligned_units f s.list (s.next * 2 ^ 18) 18;
        next = suc s.next;
        contents = s.contents;
      }

      fits : s.next * 2 ^ 18 < 2 ^ 64
      fits = omega (arith, more, room)

      in_use : (x : ℕ) → x < 2 ^ 64 → free_units f law s.list x + inside (s.next * 2 ^ 18) 18 x ≤ 1
      in_use x small = elim (either x (s.next * 2 ^ 18)) [
        | inl low ↦
            omega (arith, before_cell (s.next * 2 ^ 18) 18 x low, at_most_one s.list buddy x small)
        | inr high ↦ omega (arith, fresh x high, inside-le (s.next * 2 ^ 18) 18 x)
      ]
        where
          either : (m n : ℕ) → (m < n) ⊎ (n ≤ m)
          either m n = omega arith

      grown : Grown f law s.list t.list (s.next * 2 ^ 18) 18
      grown =
          release_aligned_units_lem f law s.list (s.next * 2 ^ 18) 18 buddy (omega (arith, top))
            (omega arith) fits in_use

      reached : Reached f law base limit t
      reached = (
        Grown.is_buddy grown,
        λ x beyond. omega (
          arith,
          Grown.covered grown x,
          fresh x (omega (arith, beyond)),
          behind_cell (s.next * 2 ^ 18) 18 x (omega (arith, beyond)),
        ),
        more,
      )

      there : 1 ≤ law.free_at t.list 18 unit
      there =
          subst (λ (l : FreeList.State f). 1 ≤ law.free_at l 18 (s.next * 2 ^ 18))
            (sym (release-push s.list (s.next * 2 ^ 18)))
            (push_there s.list (s.next * 2 ^ 18) buddy fits (fresh (s.next * 2 ^ 18) (omega arith)))

  unfoldable pub AfterPage : Option Address × Source f base limit → Type 0
  AfterPage (none, s') = Reached f law base limit s'
  AfterPage (some page, s') = Ready (add f base limit s' page (1 <<< 21))

  pub next_page-AfterPage :
      (s : Source f base limit) → Reached f law base limit s → AfterPage (next_page f base limit s)
  unfolding next_page AfterPage
  next_page-AfterPage s ok = elim (Bool-cases (ltb s.next limit)) [
    | inl more ↦ rw more (added s ok (ltb→lt s.next limit more))
    | inr all ↦ rw all ok
  ]

  -- The source that takes fresh pages obeys the laws that the allocator asks for, over any implementation of the cell lists of
  -- the buddy allocator.
  unfoldable pub fresh_source-IsCellSource : IsCellSource (fresh_source f base limit)
  unfolding Handed AfterPage
  fresh_source-IsCellSource = record {
    Valid = Reached f law base limit;
    allocate_law = λ (s s' : Source f base limit) (bytes : ℕ) (r : AddressRange) ok whole small eq.
        let h =
          subst
            (λ (x : Option AddressRange × Source f base limit).
              Handed f law base limit x bytes s.list)
            eq (handed f law base limit top least aligned room s bytes ok whole small) in
        (h.1, λ a v low high. h.0);
    none_law = λ (s s' : Source f base limit) (bytes : ℕ) ok whole small eq.
        (subst
          (λ (x : Option AddressRange × Source f base limit).
            Handed f law base limit x bytes s.list)
          eq (handed f law base limit top least aligned room s bytes ok whole small)).0;
    no_page_law =
        λ (s s' : Source f base limit) ok eq. subst AfterPage eq (next_page-AfterPage s ok);
    added_law = λ (s s' : Source f base limit) (page : Address) ok eq.
        subst AfterPage eq (next_page-AfterPage s ok);
    write_law = λ (s : Source f base limit) (a : Address) (v : ℕ) fits.
        rw (same_address a) (mod-eq_of_lt fits);
    words =
        λ (s : Source f base limit) (a : Address). mod-lt (s.contents a) {m = 2 ^ 64} (omega arith);
  }
