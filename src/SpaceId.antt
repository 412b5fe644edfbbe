-- ===== src/SpaceId.antt =====
-- mallockit/src/space/mod.rs: `SpaceId`; mallockit/src/util/mem/heap.rs: `Heap`.
pub mod Laws
pub mod Tests
use malloc_kit.Base.{
  ℕ, ◌+◌, ◌-◌, ◌%◌, ◌^◌, bit_and, Bool, ◌&&◌, if◌then◌else◌, ltb, leb, ◌==◌, wrapping_add, ◌<<<◌,
  ◌>>>◌,
}
use malloc_kit.Address.{Address}

-- `SpaceId(u8)`.
abbrev pub SpaceId : Type 0
SpaceId = ℕ

abbrev pub log_max_space_size : ℕ
log_max_space_size = 41

abbrev pub space_mask : ℕ
space_mask = 0b1111 <<< log_max_space_size

unfoldable pub next : SpaceId → SpaceId
next id = let new_id = (id + 1) % 256 in if new_id == 15 then (new_id + 1) % 256 else new_id

abbrev pub default_space : SpaceId
default_space = 1

unfoldable pub large_object_space : SpaceId
unfolding next
large_object_space = next default_space

unfoldable pub from : Address → SpaceId
from addr = (bit_and addr space_mask >>> log_max_space_size) % 256

unfoldable pub contains : SpaceId → Address → Bool
unfolding from
contains id addr = from addr == id

abbrev pub heap_size : ℕ
heap_size = 1 <<< 45

-- `Heap`: what `map_heap` returned, and its end.
pub record Heap : Type 0 where
  pub start : Address
  pub end : Address

abbrev pub new_heap : Address → Heap
new_heap mapped = record { start = mapped; end = wrapping_add mapped heap_size }

unfoldable pub heap_contains : Heap → Address → Bool
heap_contains h ptr = leb h.start ptr && ltb ptr h.end

-- `get_space_range`: the start and the end of a space's part of the heap.
unfoldable pub get_space_range : Heap → SpaceId → Address × Address
get_space_range h id =
    let start = wrapping_add h.start (id <<< log_max_space_size) in
    (start, wrapping_add start (1 <<< log_max_space_size))
