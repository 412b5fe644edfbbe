-- ===== src/LargeObject/Laws.antt =====
-- The bins of the cache, and a block that is cached and taken again.
use malloc_kit.Base.{
  ℕ, ◌+◌, ◌^◌, ◌≤◌, ◌<◌, ◌≡◌, ◌≢◌, min, Bool, true, false, arith, refl, ◌∙◌, ap, List, some,
  if◌then◌else◌, leb, length, length-set, get_or, set, get_or-set_self, ne→==, ge→ltb, wrapping_add,
  wrapping_sub, next_power_of_two, trailing_zeros, log_ceil, pow_pos,
}
use malloc_kit.Powers.{
  next_power_of_two-eq-pow, trailing_zeros-pow, log_ceil-le, log_ceil-pow, pow-log_ceil_bounds,
  exponent_le,
}
use malloc_kit.Address.{Address}
use malloc_kit.Layout.{Layout}
use malloc_kit.LargeObject.{
  LargeSpace, size_class, bins, LargeObjectAllocator, with_heads, count_alloc, counted, cacheable,
  get_layout, alloc, cache_block, must_clear, dealloc,
}

trailing-eq : (n : ℕ) → n ≤ 2 ^ 62 → trailing_zeros (next_power_of_two n) ≡ log_ceil n
trailing-eq n fits =
    ap trailing_zeros (next_power_of_two-eq-pow n (omega (arith, fits)))
    ∙ trailing_zeros-pow (log_ceil n) (omega (arith, log_ceil-le n 62 (omega (arith, fits)) fits))

-- A size that is cached has a bin: its class, the number of doublings from one page, is less than the number of bins.
size_class-lt :
    (log_bytes size max_size : ℕ)
    → max_size ≤ 2 ^ 62
    → 2 ^ log_bytes ≤ 2 ^ log_ceil size
    → 2 ^ log_ceil size ≤ max_size
    → (size_class log_bytes (2 ^ log_ceil size) < bins log_bytes max_size)
      × (size_class log_bytes (2 ^ log_ceil size) + log_bytes ≡ log_ceil size)
unfolding size_class bins
size_class-lt log_bytes size max_size fits page cached =
    let k : ℕ = log_ceil size in
    let top : ℕ = log_ceil max_size in
    let bound : k ≤ 62 = exponent_le k 62 max_size cached fits in
    let self : trailing_zeros (next_power_of_two (2 ^ k)) ≡ k =
      trailing-eq (2 ^ k) (omega (arith, cached, fits)) ∙ log_ceil-pow k (omega (arith, bound)) in
    let le : log_bytes ≤ k = exponent_le log_bytes k (2 ^ log_bytes) (omega arith) page in
    let below : k ≤ top =
      exponent_le k top max_size cached
        (pow-log_ceil_bounds max_size (omega (arith, cached, pow_pos k)) (omega (arith, fits))).0 in
    rw (self, trailing-eq max_size fits, ge→ltb top log_bytes (omega (arith, le, below)))
      (omega (arith, le, below, bound), omega (arith, le, bound))

module _ (space : LargeSpace) (log_bytes max_size slop : ℕ) where
  open space use {State, get_contiguous_pages, load, write}

  dealloc-eq :
      (fuel : ℕ) (a : LargeObjectAllocator space log_bytes max_size slop) (s : State)
      (ptr : Address) (size : ℕ)
      → next_power_of_two (get_layout space log_bytes max_size slop s ptr).size ≡ size
      → cacheable space log_bytes max_size slop size ≡ true
      → must_clear space log_bytes max_size slop
          (cache_block space log_bytes max_size slop (a, s) ptr size).0
        ≡ false
      → dealloc space log_bytes max_size slop fuel (a, s) ptr
        ≡ cache_block space log_bytes max_size slop (a, s) ptr size
  unfolding dealloc
  dealloc-eq fuel a s ptr size same cached stays = rw (same, cached, stays) refl

  alloc-eq :
      (b : LargeObjectAllocator space log_bytes max_size slop) (t : State) (ptr : Address)
      (layout : Layout)
      → let size = next_power_of_two layout.size in
        let sc = size_class log_bytes size in
        cacheable space log_bytes max_size slop size ≡ true
        → get_or b.heads sc 0 ≡ ptr
        → ptr ≢ 0
        → alloc space log_bytes max_size slop (b, t) layout ≡ (
          some ptr,
          (
            count_alloc space log_bytes max_size slop
                (with_heads space log_bytes max_size slop b (set b.heads sc (load t ptr)))
                size,
            t,
          ),
        )
  unfolding alloc counted
  alloc-eq b t ptr layout cached head ne = rw (cached, head, ne→== ptr 0 ne) refl

  live_of :
      (a : LargeObjectAllocator space log_bytes max_size slop) (size : ℕ)
      → (count_alloc space log_bytes max_size slop a size).live ≡ wrapping_add a.live size
  unfolding count_alloc
  live_of a size = choose (leb a.max_live (wrapping_add a.live size))
    where
      choose :
          (b : Bool)
          → (if b
              then (let live = wrapping_add a.live size in
                  let r : LargeObjectAllocator space log_bytes max_size slop = record {
                    heads = a.heads;
                    max_live = live;
                    live = live;
                    cleared = false;
                  } in
                  r)
              else record {
                heads = a.heads;
                max_live = a.max_live;
                live = wrapping_add a.live size;
                cleared = a.cleared;
              }).live
            ≡ wrapping_add a.live size
      choose true = refl
      choose false = refl

  heads_of :
      (a : LargeObjectAllocator space log_bytes max_size slop) (size : ℕ)
      → (count_alloc space log_bytes max_size slop a size).heads ≡ a.heads
  unfolding count_alloc
  heads_of a size = choose (leb a.max_live (wrapping_add a.live size))
    where
      choose :
          (b : Bool)
          → (if b
              then (let live = wrapping_add a.live size in
                  let r : LargeObjectAllocator space log_bytes max_size slop = record {
                    heads = a.heads;
                    max_live = live;
                    live = live;
                    cleared = false;
                  } in
                  r)
              else record {
                heads = a.heads;
                max_live = a.max_live;
                live = wrapping_add a.live size;
                cleared = a.cleared;
              }).heads
            ≡ a.heads
      choose true = refl
      choose false = refl

  -- A block of a cached size that is freed without clearing the cache is the next one that an allocation of this size returns. Its bin then has
  -- the head that it had before, the space has changed by the write of one link only, and the count of live bytes is
  -- what it was, where the block was counted.
  pub alloc-dealloc :
      (fuel : ℕ) (a : LargeObjectAllocator space log_bytes max_size slop) (s : State)
      (ptr : Address) (layout : Layout)
      → ptr ≢ 0
      → let size = next_power_of_two layout.size in
        let sc = size_class log_bytes size in
        next_power_of_two (get_layout space log_bytes max_size slop s ptr).size ≡ size
        → cacheable space log_bytes max_size slop size ≡ true
        → sc < length a.heads
        → must_clear space log_bytes max_size slop
            (cache_block space log_bytes max_size slop (a, s) ptr size).0
          ≡ false
        → size ≤ a.live
        → a.live < 2 ^ 64
        → load (write s ptr (get_or a.heads sc 0)) ptr ≡ get_or a.heads sc 0
        → let r =
            alloc space log_bytes max_size slop
              (dealloc space log_bytes max_size slop fuel (a, s) ptr)
              layout in
          (r.0 ≡ some ptr)
          × (get_or (r.1).0.heads sc 0 ≡ get_or a.heads sc 0)
          × ((r.1).0.live ≡ a.live)
          × ((r.1).1 ≡ write s ptr (get_or a.heads sc 0))
  unfolding cache_block with_heads
  alloc-dealloc fuel a s ptr layout ne same cached in_range stays counted_in fits linked =
      let size : ℕ = next_power_of_two layout.size in
      let sc : ℕ = size_class log_bytes size in
      let old : Address = get_or a.heads sc 0 in
      let t : State = write s ptr old in
      let b : LargeObjectAllocator space log_bytes max_size slop =
        (cache_block space log_bytes max_size slop (a, s) ptr size).0 in
      let first = dealloc-eq fuel a s ptr size same cached stays in
      let second = alloc-eq b t ptr layout cached (get_or-set_self a.heads sc ptr 0 in_range) ne in
      let after : LargeObjectAllocator space log_bytes max_size slop =
        with_heads space log_bytes max_size slop b (set b.heads sc (load t ptr)) in
      let whole = ap (λ st. alloc space log_bytes max_size slop st layout) first ∙ second in
      let back : wrapping_add (wrapping_sub a.live (min size a.live)) size ≡ a.live =
        omega (arith, counted_in, fits) in
      (
        ap (λ r. r.0) whole,
        ap (λ r. get_or (r.1).0.heads sc 0) whole
            ∙ ap (λ (hs : List Address). get_or hs sc 0) (heads_of after size)
            ∙ get_or-set_self (set a.heads sc ptr) sc (load t ptr) 0
                (rw (length-set a.heads sc ptr) in_range)
            ∙ linked,
        ap (λ r. (r.1).0.live) whole ∙ live_of after size ∙ back,
        ap (λ r. (r.1).1) whole,
      )
