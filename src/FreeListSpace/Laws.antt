-- ===== src/FreeListSpace/Laws.antt =====
-- The block that an allocation returns lies in its cell, behind the header.
use malloc_kit.Base.{
  ℕ, suc, ◌+◌, ◌-◌, ◌%◌, ◌^◌, ◌≤◌, ◌<◌, ◌≡◌, ◌⊎◌, inl, inr, max, arith, refl, sym, ◌∙◌, ap, subst,
  Option, none, some, pow_mono, wrapping_sub, ◌<<<◌,
}
use malloc_kit.Address.{Address}
use malloc_kit.Address.Align.{aligned_weaken}
use malloc_kit.Layout.{Layout, extend_unchecked, padded_size}
use malloc_kit.Layout.Laws.{IsLayout, log-lt}
use malloc_kit.Intrusive.{AddressRange}
use malloc_kit.FreeListSpace.{
  cell_layout, cell_from, cell_set, cell_start, cell_size, cell_align, CellSource, alloc_cell,
  place, alloc,
}
use malloc_kit.FreeListSpace.Cell.{cell_lem, cell_set-lt}
use malloc_kit.FreeListSpace.Place.{IsCellRange, Extended, Extended-of, Placed, place_lem}

-- What the allocator relies on, in the states that are reached: for a multiple of 8 bytes that fits a cell of 1 MB with its
-- header the free list finds aligned cells that are large enough, a page that was taken from the source of pages can
-- be added and serves any such request, and memory holds what is written to it. Writing inside a cell that was just
-- handed out does not disturb the free list.
pub record IsCellSource (source : CellSource) : Type 1 where
  pub Valid : CellSource.State source → Type 0
  pub allocate_law :
      (s s' : CellSource.State source) (bytes : ℕ) (r : AddressRange)
      → Valid s
      → bytes % 8 ≡ 0
      → bytes + 8 ≤ 2 ^ 20
      → CellSource.allocate_cell source s bytes ≡ (some r, s')
      → IsCellRange bytes r
        × ((a : Address) (v : ℕ)
            → r.start ≤ a
            → a + 8 ≤ r.end
            → Valid (CellSource.write source s' a v))
  pub none_law :
      (s s' : CellSource.State source) (bytes : ℕ)
      → Valid s
      → bytes % 8 ≡ 0
      → bytes + 8 ≤ 2 ^ 20
      → CellSource.allocate_cell source s bytes ≡ (none, s')
      → Valid s'
  pub no_page_law :
      (s s' : CellSource.State source)
      → Valid s
      → CellSource.refill source s ≡ (none, s')
      → Valid s'
  pub added_law :
      (s s' : CellSource.State source) (page : Address)
      → Valid s
      → CellSource.refill source s ≡ (some page, s')
      → let t = CellSource.add_units source s' page (1 <<< 21) in
        Valid t
        × ((bytes : ℕ)
            → bytes % 8 ≡ 0
            → bytes + 8 ≤ 2 ^ 20
            → (r : AddressRange) × (t' : CellSource.State source) × (CellSource.allocate_cell source
                  t bytes
                ≡ (some r, t')))
  pub write_law :
      (s : CellSource.State source) (a : Address) (v : ℕ)
      → v < 2 ^ 64
      → CellSource.memory source (CellSource.write source s a v) a ≡ v
  pub words : (s : CellSource.State source) (a : Address) → CellSource.memory source s a < 2 ^ 64

this_lem : (p : Address) → 8 ≤ p → p < 2 ^ 64 → cell_from p + 8 ≡ p
unfolding cell_from
this_lem p low high = omega (arith, low, high)

module _ (source : CellSource) (law : IsCellSource source) where
  open source use {State, allocate_cell, release_cell, add_units, refill, memory, write}

  -- The states in which the cell may be found: the first one, or, when that has none, the one with a page of the source added.
  unfoldable pub Searched : State → ℕ → State → Type 0
  Searched s bytes t =
      (t ≡ s)
      ⊎ (((allocate_cell s bytes).0 ≡ none)
          × ((page : Address) × ((refill ((allocate_cell s bytes).1)).0 ≡ some page)
              × (t ≡ add_units (refill ((allocate_cell s bytes).1)).1 page (1 <<< 21))))

  -- A cell for the bytes, or neither the free list nor its source of pages had anything.
  unfoldable pub FoundCell : State → ℕ → Option AddressRange × State → Type 0
  FoundCell s bytes (some r, s') =
      (t : State) × Searched s bytes t
      × law.Valid t
      × (allocate_cell t bytes ≡ (some r, s'))
      × IsCellRange bytes r
  FoundCell s bytes (none, s') =
      law.Valid s'
      × ((allocate_cell s bytes).0 ≡ none)
      × ((refill ((allocate_cell s bytes).1)).0 ≡ none)

  -- With fuel for two rounds, `alloc_cell` returns an aligned cell that holds the bytes and a header, which the free
  -- list hands out at once or, when it has none, after one page was taken from the source and added; or both had
  -- nothing. The bytes are a multiple of 8 and fit 1 MB with the header, and the state is one that is reached.
  pub alloc_cell_lem :
      (fuel : ℕ) (s : State) (bytes : ℕ)
      → law.Valid s
      → bytes % 8 ≡ 0
      → bytes + 8 ≤ 2 ^ 20
      → FoundCell s bytes (alloc_cell source (suc (suc fuel)) s bytes)
  unfolding alloc_cell FoundCell Searched
  alloc_cell_lem fuel s bytes ok whole small = first (allocate_cell s bytes) refl
    where
      second :
          (s' : State) (page : Option Address × State)
          → (allocate_cell s bytes ≡ (none, s'))
          → refill s' ≡ page
          → FoundCell s bytes (elim page.0 [
            | none ↦ (none, page.1)
            | some start ↦ alloc_cell source (suc fuel) (add_units page.1 start (1 <<< 21)) bytes
          ])
      second s' (none, t) eq refilled = (
        law.no_page_law s' t (law.none_law s s' bytes ok whole small eq) refilled,
        ap (λ r. r.0) eq,
        ap (λ r. (refill r.1).0) eq ∙ ap (λ r. r.0) refilled,
      )
      second s' (some start, t) eq refilled =
          let (valid, serves) =
            law.added_law s' t start (law.none_law s s' bytes ok whole small eq) refilled in
          let (r, t', found) = serves bytes whole small in
          let u : State = add_units t start (1 <<< 21) in
          subst
            (λ (found : Option AddressRange × State). FoundCell s bytes (elim found.0 [
              | some range ↦ (some range, found.1)
              | none ↦ elim (refill found.1).0 [
                | none ↦ (none, (refill found.1).1)
                | some next ↦
                    alloc_cell source fuel (add_units (refill found.1).1 next (1 <<< 21)) bytes
              ]
            ]))
            (sym found)
            (
              u,
              inr (
                ap (λ r. r.0) eq,
                (
                  start,
                  ap (λ r. (refill r.1).0) eq ∙ ap (λ r. r.0) refilled,
                  ap (λ (p : Option Address × State). add_units p.1 start (1 <<< 21)) (sym refilled)
                      ∙ ap
                          (λ (p : Option AddressRange × State).
                            add_units (refill p.1).1 start (1 <<< 21))
                          (sym eq),
                ),
              ),
              valid,
              found,
              (law.allocate_law u t' bytes r valid whole small found).0,
            )

      first :
          (found : Option AddressRange × State)
          → allocate_cell s bytes ≡ found
          → FoundCell s bytes (elim found.0 [
            | some range ↦ (some range, found.1)
            | none ↦ elim (refill found.1).0 [
              | none ↦ (none, (refill found.1).1)
              | some start ↦
                  alloc_cell source (suc fuel) (add_units (refill found.1).1 start (1 <<< 21)) bytes
            ]
          ])
      first (some r, s') eq =
          (s, inl refl, ok, eq, (law.allocate_law s s' bytes r ok whole small eq).0)
      first (none, s') eq = second s' (refill s') eq refl

  -- A block in the cell, aligned and behind the header, from which `dealloc` and `get_layout`
  -- find the cell and the alignment again.
  pub record IsBlock (layout : Layout) (range : AddressRange) (p : Address) (s : State)
      : Type 0 where
    pub is_aligned : p % layout.align ≡ 0
    pub behind : range.start + 8 ≤ p
    pub inside : p + layout.size ≤ range.end
    pub start_back : cell_start (memory s (cell_from p)) (cell_from p) ≡ range.start
    pub size_back : cell_size (memory s (cell_from p)) ≡ range.end - range.start
    pub align_back : cell_align (memory s (cell_from p)) ≡ layout.align

  unfoldable pub AllocatedBlock : ℕ → State → Layout → Option Address × State → Type 0
  AllocatedBlock fuel s layout (some p, s') =
      let bytes = padded_size ((extend_unchecked cell_layout layout).0) in
      ((range : AddressRange) × (found : State) × (alloc_cell source fuel s bytes
          ≡ (some range, found))
        × IsBlock layout range p s')
      × law.Valid s'
  AllocatedBlock fuel s layout (none, s') =
      let bytes = padded_size ((extend_unchecked cell_layout layout).0) in
      law.Valid s'
      × ((allocate_cell s bytes).0 ≡ none)
      × ((refill ((allocate_cell s bytes).1)).0 ≡ none)

  block_lem :
      (layout : Layout) (v : IsLayout layout) (r : AddressRange) (s : State)
      → 1 ≤ layout.size
      → layout.size + layout.align ≤ 2 ^ 20
      → IsCellRange (padded_size ((extend_unchecked cell_layout layout).0)) r
      → let p = place layout r in
        let this = cell_from p in
        let word =
          cell_set (memory s this) this r.start (wrapping_sub r.end r.start) layout.align in
        IsBlock layout r p (write s this word)
  block_lem layout v r s some_size small cr =
      let p : Address = place layout r in
      let placed : Placed layout r p = place_lem layout v r some_size small cr in
      let this : Address = cell_from p in
      let old : ℕ = memory s this in
      let room : ℕ = r.end - r.start in
      let full : 2 ^ cr.log_size ≤ 2 ^ 20 = pow_mono cr.log_size 20 cr.small in
      let below : this + 8 ≡ p =
        this_lem p (omega (arith, Placed.behind placed))
          (omega (arith, Placed.inside placed, Placed.in_range placed)) in
      let span : wrapping_sub r.end r.start ≡ room =
        omega (arith, cr.start-eq, cr.end-eq, cr.in_range, cr.holds) in
      let word : ℕ = cell_set old this r.start (wrapping_sub r.end r.start) layout.align in
      let low : r.start ≤ this + 8 = omega (arith, below, Placed.behind placed) in
      let high : this + 8 < r.start + 2 ^ 21 = omega (arith, below, Placed.near placed) in
      let fits : this + 8 < 2 ^ 64 =
        omega (arith, below, Placed.inside placed, Placed.in_range placed) in
      let word-eq : word ≡ cell_set old this r.start room (2 ^ v.log_align) =
        ap (λ (n : ℕ). cell_set old this r.start n layout.align) span
        ∙ ap (λ (n : ℕ). cell_set old this r.start room n) v.is_pow in
      let is_word : word < 2 ^ 64 =
        subst (λ (w : ℕ). w < 2 ^ 64) (sym word-eq)
          (cell_set-lt old this r.start room v.log_align (law.words s this) low high fits
            (omega (arith, cr.start-eq, cr.end-eq, full)) (log-lt v)) in
      let written : memory (write s this word) this
          ≡ cell_set old this r.start room (2 ^ v.log_align) =
        law.write_law s this word is_word ∙ word-eq in
      let back =
        cell_lem old this r.start room v.log_align (law.words s this) low high fits
          (omega (arith, cr.start-eq, cr.end-eq, full))
          (omega (arith, below, Placed.inside placed, Placed.behind placed)) (log-lt v) in
      record {
        is_aligned = Placed.is_aligned placed;
        behind = Placed.behind placed;
        inside = Placed.inside placed;
        start_back = ap (λ (w : ℕ). cell_start w this) written ∙ back.0;
        size_back = ap (λ (w : ℕ). cell_size w) written ∙ back.1;
        align_back = ap (λ (w : ℕ). cell_align w) written ∙ back.2 ∙ sym v.is_pow;
      }

  -- The header is inside the cell.
  header_in_cell :
      (layout : Layout) (v : IsLayout layout) (r : AddressRange)
      → 1 ≤ layout.size
      → layout.size + layout.align ≤ 2 ^ 20
      → IsCellRange (padded_size ((extend_unchecked cell_layout layout).0)) r
      → let this = cell_from (place layout r) in (r.start ≤ this) × (this + 8 ≤ r.end)
  header_in_cell layout v r some_size small cr =
      let p : Address = place layout r in
      let placed : Placed layout r p = place_lem layout v r some_size small cr in
      let below : cell_from p + 8 ≡ p =
        this_lem p (omega (arith, Placed.behind placed))
          (omega (arith, Placed.inside placed, Placed.in_range placed)) in
      (omega (arith, below, Placed.behind placed), omega (arith, below, Placed.inside placed))

  -- `alloc` of a layout that is small and not empty, with fuel for two rounds, returns a block that is aligned as
  -- asked, lies behind its header in the cell that `alloc_cell` found, and whose header leads `dealloc` back to exactly
  -- that cell; it fails only when the free list and the source of pages had nothing. Small means that the size and the
  -- alignment are at most 256 KB together; the state is one that is reached.
  pub alloc_lem :
      (fuel : ℕ) (s : State) (layout : Layout) (v : IsLayout layout)
      → law.Valid s
      → 1 ≤ layout.size
      → layout.size + layout.align ≤ 2 ^ 18
      → AllocatedBlock (suc (suc fuel)) s layout (alloc source (suc (suc fuel)) s layout)
  unfolding alloc AllocatedBlock FoundCell
  alloc_lem fuel s layout v ok some_size small =
      let bytes : ℕ = padded_size ((extend_unchecked cell_layout layout).0) in
      let x : Extended layout (max 3 v.log_align) = Extended-of layout v (omega (arith, small)) in
      let whole : bytes % 8 ≡ 0 =
        aligned_weaken (max 3 v.log_align) 3 bytes (omega arith) (Extended.bytes_aligned x) in
      let fits : bytes + 8 ≤ 2 ^ 20 = omega (arith, Extended.bytes_small x, small) in
      found whole fits (alloc_cell source (suc (suc fuel)) s bytes) refl
        (alloc_cell_lem fuel s bytes ok whole fits)
    where
      found :
          padded_size ((extend_unchecked cell_layout layout).0) % 8 ≡ 0
          → padded_size ((extend_unchecked cell_layout layout).0) + 8 ≤ 2 ^ 20
          → (r : Option AddressRange × State)
          → alloc_cell source
              (suc (suc fuel))
              s
              (padded_size ((extend_unchecked cell_layout layout).0))
            ≡ r
          → FoundCell s (padded_size ((extend_unchecked cell_layout layout).0)) r
          → AllocatedBlock (suc (suc fuel)) s layout (elim r.0 [
            | none ↦ (none, r.1)
            | some range ↦
                let p = place layout range in
                let this = cell_from p in
                let word =
                  cell_set
                    (memory r.1 this)
                    this
                    range.start
                    (wrapping_sub range.end range.start)
                    layout.align in
                (some p, write r.1 this word)
          ])
      found whole fits (none, t) eq h = h
      found whole fits (some range, t) eq (u, from, valid, handed, cr) =
          let bytes : ℕ = padded_size ((extend_unchecked cell_layout layout).0) in
          let header = header_in_cell layout v range some_size (omega (arith, small)) cr in
          (
            (range, t, eq, block_lem layout v range t some_size (omega (arith, small)) cr),
            (law.allocate_law u t bytes range valid whole fits handed).1 _ _ header.0 header.1,
          )
