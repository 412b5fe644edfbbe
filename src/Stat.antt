-- ===== src/Stat.antt =====
-- mallockit/src/stat.rs: the counters of allocations.
pub mod Laws
use malloc_kit.Base.{
  ℕ, ◌+◌, ◌-◌, Bool, List, if◌then◌else◌, leb, length, get_or, set, replicate, wrapping_add,
  next_power_of_two, trailing_zeros,
}
use malloc_kit.Layout.{Layout}

-- `ALIGNMENTS`, `SIZES`, and the totals.
pub record Counters : Type 0 where
  pub total_allocations : ℕ
  pub large_allocations : ℕ
  pub total_deallocations : ℕ
  pub large_deallocations : ℕ
  pub alignments : List ℕ
  pub sizes : List ℕ

unfoldable pub zero_counters : Counters
zero_counters = record {
  total_allocations = 0;
  large_allocations = 0;
  total_deallocations = 0;
  large_deallocations = 0;
  alignments = replicate 12 0;
  sizes = replicate 23 0;
}

-- `inc(1)` of the counter of a power of two; the last counter is for the others.
unfoldable pub clamp_index : List ℕ → ℕ → ℕ
clamp_index counters i = if leb (length counters) i then length counters - 1 else i

unfoldable pub bump : List ℕ → ℕ → List ℕ
bump counters i =
    let j = clamp_index counters i in set counters j (wrapping_add (get_or counters j 0) 1)

unfoldable pub track_allocation : Counters → Layout → Bool → Counters
track_allocation c layout is_large = record {
  total_allocations = wrapping_add c.total_allocations 1;
  large_allocations = if is_large then wrapping_add c.large_allocations 1 else c.large_allocations;
  total_deallocations = c.total_deallocations;
  large_deallocations = c.large_deallocations;
  alignments = bump c.alignments (trailing_zeros layout.align);
  sizes = bump c.sizes (trailing_zeros (next_power_of_two layout.size));
}

unfoldable pub track_deallocation : Counters → Bool → Counters
track_deallocation c is_large = record {
  total_allocations = c.total_allocations;
  large_allocations = c.large_allocations;
  total_deallocations = wrapping_add c.total_deallocations 1;
  large_deallocations =
      if is_large then wrapping_add c.large_deallocations 1 else c.large_deallocations;
  alignments = c.alignments;
  sizes = c.sizes;
}
