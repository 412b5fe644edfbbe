-- ===== src/SpaceId/Laws.antt =====
-- The spaces cut the heap into sixteen equal parts, and an address names its space.
use malloc_kit.Base.{◌+◌, ◌/◌, ◌%◌, ◌^◌, ◌≤◌, ◌<◌, ◌≡◌, ◌↔◌, true, arith}
use malloc_kit.Bits.{and_mask, and_above}
use malloc_kit.Address.{Address}
use malloc_kit.SpaceId.{SpaceId, Heap, from, contains, heap_contains, get_space_range}

-- `map_heap` aligns the heap to its size.
pub record IsHeap (h : Heap) : Type 0 where
  pub aligned : h.start % 2 ^ 45 ≡ 0
  pub bound : h.start + 2 ^ 45 < 2 ^ 64
  pub extent : h.end ≡ h.start + 2 ^ 45

from-eq : (a : Address) → from a ≡ a / 2 ^ 41 % 16
unfolding from
from-eq a = omega (arith, and_above 41 15 a, and_mask 4 (a / 2 ^ 41))

-- For a space of the heap, `contains` says exactly whether an address of the heap lies in the
-- range of that space.
pub contains-get_space_range :
    (h : Heap) (id : SpaceId) (a : Address)
    → IsHeap h
    → id < 16
    → heap_contains h a ≡ true
    → (contains id a ≡ true) ↔ ((get_space_range h id).0 ≤ a) × (a < (get_space_range h id).1)
unfolding contains get_space_range heap_contains
contains-get_space_range h id a v small inside = ground (arith, from-eq a)

-- The ranges of the sixteen spaces follow one another and fill the heap.
pub get_space_range_partition :
    (h : Heap) (id : SpaceId)
    → IsHeap h
    → id < 16
    → (h.start ≤ (get_space_range h id).0)
      × ((get_space_range h id).1 ≡ (get_space_range h id).0 + 2 ^ 41)
      × ((get_space_range h id).1 ≤ h.end)
      × (id < 15 → (get_space_range h (id + 1)).0 ≡ (get_space_range h id).1)
unfolding get_space_range
get_space_range_partition h id v small = omega arith
