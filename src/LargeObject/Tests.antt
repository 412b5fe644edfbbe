-- ===== src/LargeObject/Tests.antt =====
-- A block of one page that is freed and allocated again.
use malloc_kit.Base.{
  ℕ, ◌≡◌, [], ◌∷◌, some, none, false, arith, refl, get_or, next_power_of_two, trailing_zeros,
}
use malloc_kit.Address.{Address}
use malloc_kit.Layout.{Layout, from_size_align}
use malloc_kit.Chain.{Memory, store}
use malloc_kit.LargeObject.{
  LargeSpace, LargeObjectAllocator, size_class, bins, alloc, dealloc, get_layout, cacheable,
  must_clear, cache_block,
}
use malloc_kit.LargeObject.Laws.{alloc-dealloc}

-- Every run has one page, and there are no more.
abbrev space : LargeSpace
space = record {
  State = Memory;
  acquire = λ (m : Memory) (n : ℕ). (none, m);
  release = λ (m : Memory) (a : Address). m;
  get_contiguous_pages = λ (m : Memory) (a : Address). 1;
  load = λ (m : Memory). m;
  write = store;
}

abbrev zeros : Memory
zeros = λ (a : Address). 0

abbrev cache : LargeObjectAllocator space 12 65536 0
cache = record { heads = 0 ∷ 0 ∷ 0 ∷ 0 ∷ 0 ∷ []; max_live = 4096; live = 4096; cleared = false }

abbrev page : Layout
page = from_size_align 4096 4096

alloc-dealloc_example :
    let r = alloc space 12 65536 0 (dealloc space 12 65536 0 9 (cache, zeros) 8192) page in
    let sc = size_class 12 (next_power_of_two 4096) in
    (r.0 ≡ some 8192)
    × (get_or (r.1).0.heads sc 0 ≡ get_or cache.heads sc 0)
    × ((r.1).0.live ≡ 4096)
    × ((r.1).1 ≡ store zeros 8192 (get_or cache.heads sc 0))
unfolding next_power_of_two trailing_zeros get_layout cacheable size_class bins must_clear
    cache_block
alloc-dealloc_example =
    alloc-dealloc space 12 65536 0 9 cache zeros 8192 page (omega arith) refl refl (omega arith)
      refl (omega arith) (omega arith) refl
