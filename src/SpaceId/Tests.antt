-- ===== src/SpaceId/Tests.antt =====
-- Spaces of a concrete heap.
use malloc_kit.Base.{◌+◌, ◌^◌, ◌≤◌, ◌<◌, ◌≡◌, ◌↔◌, true, arith, refl}
use malloc_kit.SpaceId.{Heap, heap_contains, get_space_range, contains}
use malloc_kit.SpaceId.Laws.{IsHeap, contains-get_space_range}

abbrev heap : Heap
heap = record { start = 2 ^ 45; end = 2 ^ 46 }

heap-IsHeap : IsHeap heap
heap-IsHeap = record { aligned = refl; bound = omega arith; extent = refl }

inside_heap : heap_contains heap (2 ^ 45 + 2 ^ 42) ≡ true
unfolding heap_contains
inside_heap = refl

contains_example :
    (contains 2 (2 ^ 45 + 2 ^ 42) ≡ true)
    ↔ ((get_space_range heap 2).0 ≤ 2 ^ 45 + 2 ^ 42)
      × (2 ^ 45 + 2 ^ 42 < (get_space_range heap 2).1)
contains_example =
    contains-get_space_range heap 2 (2 ^ 45 + 2 ^ 42) heap-IsHeap (omega arith) inside_heap
