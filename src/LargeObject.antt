-- ===== src/LargeObject.antt =====
-- mallockit/src/space/large_object_space.rs: `LargeObjectAllocator`, which caches runs of pages by size class.
pub mod Laws
pub mod Tests
use malloc_kit.Base.{
  ℕ, zero, suc, ◌+◌, ◌-◌, ◌≤◌, min, Bool, true, false, not, ◌&&◌, List, [], ◌∷◌, Option, none, some,
  if◌then◌else◌, leb, ltb, ◌==◌, get_or, set, replicate, wrapping_add, wrapping_sub, ◌<<<◌, ◌>>>◌,
  next_power_of_two, trailing_zeros,
}
use malloc_kit.Address.{Address, is_zero, zero_address}
use malloc_kit.Layout.{Layout, from_size_align}
use malloc_kit.Chain.{Memory}
use malloc_kit.Page

-- The space: its page resource, and the words of memory.
pub record LargeSpace : Type 1 where
  pub State : Type 0
  pub acquire : State → ℕ → Option Address × State
  pub release : State → Address → State
  pub get_contiguous_pages : State → Address → ℕ
  pub load : State → Memory
  pub write : State → Address → ℕ → State

module _ (log_bytes : ℕ) where
  unfoldable pub size_class : ℕ → ℕ
  size_class size = wrapping_sub (trailing_zeros (next_power_of_two size)) log_bytes

  -- The number of bins for the sizes that are cached.
  unfoldable pub bins : ℕ → ℕ
  bins max_size =
      let log = trailing_zeros (next_power_of_two max_size) in
      if ltb log log_bytes then 0 else log - log_bytes + 1

module _ (space : LargeSpace) (log_bytes max_cacheable_size threshold_slop : ℕ) where
  open space use {State, acquire, release, get_contiguous_pages, load, write}

  pub record LargeObjectAllocator : Type 0 where
    pub heads : List Address
    pub max_live : ℕ
    pub live : ℕ
    pub cleared : Bool

  unfoldable pub new : LargeObjectAllocator
  new = record {
    heads = replicate (bins log_bytes max_cacheable_size) zero_address;
    max_live = 0;
    live = 0;
    cleared = false;
  }

  -- `LargeObjectSpace::get_layout`
  unfoldable pub get_layout : State → Address → Layout
  get_layout s ptr =
      let bytes = get_contiguous_pages s ptr <<< log_bytes in
      from_size_align bytes (next_power_of_two bytes)

  -- Whether blocks of this size are cached.
  unfoldable pub cacheable : ℕ → Bool
  cacheable aligned_size =
      ltb 0 (bins log_bytes max_cacheable_size) && leb aligned_size max_cacheable_size

  unfoldable pub alloc_slow : State → Layout → Option Address × State
  alloc_slow s layout =
      acquire s (wrapping_add layout.size (Page.page_mask log_bytes) >>> log_bytes)

  -- The inner loop of `clear_bins`, with fuel for the pages of a bin. The link is read before the release.
  unfoldable pub release_all : ℕ → State → Address → State
  release_all zero s page = s
  release_all (suc fuel) s page =
      let rest = release_all fuel (release s page) (load s page) in if is_zero page then s else rest

  unfoldable pub clear_heads : ℕ → State → List Address → List Address × State
  clear_heads fuel s [] = ([], s)
  clear_heads fuel s (page ∷ pages) =
      let (rest, s') = clear_heads fuel (release_all fuel s page) pages in (zero_address ∷ rest, s')

  unfoldable pub with_heads : LargeObjectAllocator → List Address → LargeObjectAllocator
  with_heads a heads = record {
    heads = heads;
    max_live = a.max_live;
    live = a.live;
    cleared = a.cleared;
  }

  unfoldable pub clear_bins : ℕ → LargeObjectAllocator × State → LargeObjectAllocator × State
  clear_bins fuel (a, s) = let (heads, s') = clear_heads fuel s a.heads in (with_heads a heads, s')

  -- The count of live bytes after an allocation.
  unfoldable pub count_alloc : LargeObjectAllocator → ℕ → LargeObjectAllocator
  count_alloc a aligned_size =
      let live = wrapping_add a.live aligned_size in
      if leb a.max_live live
      then record { heads = a.heads; max_live = live; live = live; cleared = false }
      else record { heads = a.heads; max_live = a.max_live; live = live; cleared = a.cleared }

  unfoldable pub counted :
      ℕ
      → LargeObjectAllocator
      → Option Address × State
      → Option Address × (LargeObjectAllocator × State)
  counted aligned_size a (none, s) = (none, (a, s))
  counted aligned_size a (some p, s) = (some p, (count_alloc a aligned_size, s))

  unfoldable pub alloc :
      LargeObjectAllocator × State → Layout → Option Address × (LargeObjectAllocator × State)
  alloc (a, s) layout =
      let aligned_size = next_power_of_two layout.size in
      let sc = size_class log_bytes aligned_size in
      let head = get_or a.heads sc 0 in
      if cacheable aligned_size
      then if is_zero head
        then counted aligned_size a (alloc_slow s layout)
        else counted aligned_size (with_heads a (set a.heads sc (load s head))) (some head, s)
      else let (found, s') = alloc_slow s layout in (found, (a, s'))

  -- Linking a block into its bin, and the count of live bytes.
  unfoldable pub cache_block :
      LargeObjectAllocator × State → Address → ℕ → LargeObjectAllocator × State
  cache_block (a, s) ptr aligned_size =
      let sc = size_class log_bytes aligned_size in
      (
        record {
          heads = set a.heads sc ptr;
          max_live = a.max_live;
          live = wrapping_sub a.live (min aligned_size a.live);
          cleared = a.cleared;
        },
        write s ptr (get_or a.heads sc 0),
      )

  -- Whether the cache is to be cleared.
  unfoldable pub must_clear : LargeObjectAllocator → Bool
  must_clear a =
      not (threshold_slop == 0)
      && ltb threshold_slop a.live
      && ltb (wrapping_add a.live (a.live >>> 2)) a.max_live
      && not a.cleared

  unfoldable pub mark_cleared : LargeObjectAllocator × State → LargeObjectAllocator × State
  mark_cleared (a, s) =
      (record { heads = a.heads; max_live = a.live; live = a.live; cleared = true }, s)

  unfoldable pub dealloc : ℕ → LargeObjectAllocator × State → Address → LargeObjectAllocator × State
  dealloc fuel (a, s) ptr =
      let aligned_size = next_power_of_two (get_layout s ptr).size in
      let kept = cache_block (a, s) ptr aligned_size in
      if cacheable aligned_size
      then if must_clear kept.0 then mark_cleared (clear_bins fuel kept) else kept
      else (a, release s ptr)

  -- `drop`
  unfoldable pub drop : ℕ → LargeObjectAllocator × State → LargeObjectAllocator × State
  drop fuel (a, s) =
      if ltb 0 (bins log_bytes max_cacheable_size) then clear_bins fuel (a, s) else (a, s)
