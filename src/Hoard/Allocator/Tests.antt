-- ===== src/Hoard/Allocator/Tests.antt =====
-- A pool that grants cells one behind the other, all of whose cells have 64 bytes.
use malloc_kit.Base.{
  ℕ, ◌+◌, ◌^◌, ◌≡◌, List, [], none, some, arith, refl, replicate, get_or-replicate,
  next_power_of_two, trailing_zeros,
}
use malloc_kit.Address.{Address}
use malloc_kit.Layout.{Layout, from_size_align, padded_size, pad_to_align_unchecked}
use malloc_kit.Layout.Laws.{IsLayout}
use malloc_kit.SizeClass
use malloc_kit.SizeClass.{SizeClass}
use malloc_kit.Chain.{Memory}
use malloc_kit.Chain.Bins.{Absent}
use malloc_kit.Tlab
use malloc_kit.Tlab.Laws.{IsTlab, total}
use malloc_kit.Hoard.Allocator.{Pool, HoardAllocator, class_bytes, new, alloc, dealloc}
use malloc_kit.Hoard.Allocator.Laws.{Allocated, alloc-Allocated, Freed, dealloc-Freed}

abbrev bump_pool : Pool
bump_pool = record {
  State = ℕ;
  alloc_cell = λ (s : ℕ) (m : Memory) (c : SizeClass). (some s, (s + 2 ^ (c + 4), m));
  free_cell = λ (s : ℕ) (m : Memory) (a : Address). (s, m);
  class_of = λ (s : ℕ) (a : Address). 2;
}

abbrev zeros : Memory
zeros = λ (a : Address). 0

abbrev no_cells : ℕ → List Address
no_cells = λ (i : ℕ). []

abbrev empty : HoardAllocator bump_pool
empty = record { tlab = record { bins = replicate 7 0; bytes = 0 }; local = 4096 }

new-empty : new bump_pool 4096 ≡ empty
unfolding new Tlab.new SizeClass.from_bytes trailing_zeros
new-empty = refl

empty-IsTlab : IsTlab class_bytes empty.tlab zeros no_cells
unfolding total SizeClass.bytes
empty-IsTlab = record {
  is_bins = record {
    chains = λ (i : ℕ) h. get_or-replicate 7 i 0;
    distinct = λ (i : ℕ). tt;
    apart = λ (i j : ℕ) (a : Address) ne h. refl;
  };
  counted = refl;
  fits = omega arith;
}

abbrev request : Layout
request = from_size_align 64 32

request-IsLayout : IsLayout request
request-IsLayout = record { log_align = 5; is_pow = refl; bound = omega arith }

padded_request : padded_size request ≡ request.size
unfolding padded_size
padded_request = refl

alloc-Allocated_example :
    Allocated bump_pool empty zeros no_cells
      (SizeClass.from_layout 4 request)
      request.size
      (alloc bump_pool empty zeros request)
alloc-Allocated_example =
    alloc-Allocated bump_pool empty zeros no_cells request empty-IsTlab refl request-IsLayout
      (omega arith) padded_request

dealloc-Freed_example :
    Freed bump_pool empty zeros no_cells 4096 (dealloc bump_pool empty zeros 4096)
unfolding Absent
dealloc-Freed_example =
    dealloc-Freed bump_pool empty zeros no_cells 4096 empty-IsTlab refl (omega arith) (omega arith)
      (omega arith) (λ (i : ℕ). refl)

-- A small layout with an alignment of 2048 is of a class without a bin: a panic.
large_alignment : alloc bump_pool empty zeros (from_size_align 16 2048) ≡ none
unfolding alloc SizeClass.from_layout SizeClass.from_bytes Tlab.pop trailing_zeros next_power_of_two
    pad_to_align_unchecked
large_alignment = refl
