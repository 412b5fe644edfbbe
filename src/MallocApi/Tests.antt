-- ===== src/MallocApi/Tests.antt =====
-- The C functions over a mutator that never reuses memory.
use malloc_kit.Base.{◌≡◌, max, true, false, is_power_of_two, arith, refl, ◌⊎◌}
use malloc_kit.Layout.{from_size_align}
use malloc_kit.Mutator.Tests.{blocks_ops, blocks_ops-IsAllocator, one_block}
use malloc_kit.MallocApi.{
  min_alignment, einval, align_up, request, Process, posix_memalign, reallocate_or_enomem,
}
use malloc_kit.MallocApi.Laws.{
  Granted, posix_memalign_lem, ReallocatedApi, reallocate_or_enomem_lem,
}

abbrev process : Process blocks_ops
process = record { mutator = one_block; errno = 0 }

-- 100 bytes at an alignment of 32 are 128 bytes.
request_100 : request 100 32 ≡ from_size_align 128 32
unfolding request align_up
request_100 = refl

posix_memalign_example :
    let r = posix_memalign blocks_ops process 0 8 100 in
    (is_power_of_two 8 ≡ false × (r ≡ (einval, (0, process))))
    ⊎ (is_power_of_two 8 ≡ true
        × Granted blocks_ops blocks_ops-IsAllocator 0 (request 100 (max 8 min_alignment)) r)
unfolding blocks_ops-IsAllocator request align_up
posix_memalign_example =
    posix_memalign_lem blocks_ops blocks_ops-IsAllocator process 0 8 100 refl
      (λ power. (refl, omega arith))

reallocate_or_enomem_example :
    ReallocatedApi blocks_ops blocks_ops-IsAllocator process 4096
      (from_size_align 32 16)
      (from_size_align (align_up 100 min_alignment) min_alignment)
      (reallocate_or_enomem blocks_ops process 4096 100 true false)
unfolding blocks_ops-IsAllocator align_up
reallocate_or_enomem_example =
    reallocate_or_enomem_lem blocks_ops blocks_ops-IsAllocator process 4096 (from_size_align 32 16)
      100 refl (refl, omega arith) (refl, omega arith, refl, refl) (omega arith) (omega arith)
