-- ===== src/MallocApi.antt =====
-- mallockit/src/util/malloc/malloc_api.rs: `MallocAPI`, the C functions over a mutator, as on Linux.
pub mod Laws
pub mod Tests
use malloc_kit.Base.{
  ℕ, ◌+◌, ◌-◌, ◌*◌, ◌%◌, ◌^◌, max, bit_and, Bool, true, false, not, ◌&&◌, ◌||◌, Option, none, some,
  if◌then◌else◌, ◌==◌, wrapping_add, wrapping_sub, bit_not, is_power_of_two,
}
use malloc_kit.Address.{Address, is_zero}
use malloc_kit.Layout.{Layout, from_size_align}
use malloc_kit.Mutator.{MutatorOps, write_bytes, realloc}

abbrev pub min_alignment : ℕ
min_alignment = 16

abbrev pub page_size : ℕ
page_size = 4096

-- The error numbers of `libc`.
abbrev pub enomem : ℕ
enomem = 12

abbrev pub einval : ℕ
einval = 22

unfoldable pub align_up : ℕ → ℕ → ℕ
align_up value align =
    let mask = wrapping_sub align 1 in bit_and (wrapping_add value mask) (bit_not mask)

-- The layout that `alloc` asks the mutator for.
unfoldable pub request : (size align : ℕ) → Layout
request size align = from_size_align (align_up (max size min_alignment) align) align

module _ (ops : MutatorOps) where
  open ops use {State, alloc, dealloc, get_layout, memory, set_memory}

  -- The mutator and `errno`.
  pub record Process : Type 0 where
    pub mutator : State
    pub errno : ℕ

  unfoldable pub set_error : Process → ℕ → Process
  set_error p e = record { mutator = p.mutator; errno = e }

  unfoldable pub with_mutator : Process → State → Process
  with_mutator p s = record { mutator = s; errno = p.errno }

  unfoldable pub malloc_size : Process → Address → ℕ
  malloc_size p ptr = (get_layout p.mutator ptr).size

  -- `Ok(Some(ptr))`, or the error.
  pub data Outcome : Type 0 where
    ok : Address → Outcome
    err : ℕ → Outcome

  unfoldable outcome : Process → Option Address × State → Outcome × Process
  unfolding with_mutator
  outcome p (none, s) = (err enomem, with_mutator p s)
  outcome p (some ptr, s) = (ok ptr, with_mutator p s)

  unfoldable pub malloc : Process → (size align : ℕ) → Outcome × Process
  unfolding outcome
  malloc p size align = outcome p (alloc p.mutator (request size align))

  unfoldable pub or_enomem : Outcome × Process → Address × Process
  unfolding set_error
  or_enomem (ok ptr, p) = (ptr, p)
  or_enomem (err e, p) = (0, set_error p enomem)

  unfoldable pub alloc_or_enomem : Process → (size align : ℕ) → Address × Process
  unfolding or_enomem
  alloc_or_enomem p size align = or_enomem (malloc p size align)

  unfoldable pub free : Process → Address → Process
  unfolding with_mutator
  free p ptr = if is_zero ptr then p else with_mutator p (dealloc p.mutator ptr)

  unfoldable pub reallocated :
      (free_if_fail : Bool) → Process → Address → Option Address × State → Address × Process
  unfolding with_mutator set_error free
  reallocated free_if_fail p ptr (some new_ptr, s) = (new_ptr, with_mutator p s)
  reallocated free_if_fail p ptr (none, s) =
      let p' = with_mutator p s in (0, set_error (if free_if_fail then free p' ptr else p') enomem)

  unfoldable pub reallocate_or_enomem :
      Process → Address → ℕ → (free_if_new_size_is_zero free_if_fail : Bool) → Address × Process
  unfolding free reallocated alloc_or_enomem
  reallocate_or_enomem p ptr new_size free_if_new_size_is_zero free_if_fail =
      if is_zero ptr
      then alloc_or_enomem p new_size min_alignment
      else if free_if_new_size_is_zero && (new_size == 0)
      then (0, free p ptr)
      else let layout = from_size_align (align_up new_size min_alignment) min_alignment in
        reallocated free_if_fail p ptr (realloc ops p.mutator ptr layout)

  -- The returned number, the value of `*result`, and the process.
  unfoldable pub memaligned : Address → Outcome × Process → ℕ × (Address × Process)
  memaligned old (ok ptr, p) = (0, (ptr, p))
  memaligned old (err e, p) = (e, (old, p))

  unfoldable pub posix_memalign :
      Process → (result : Address) → (alignment size : ℕ) → ℕ × (Address × Process)
  unfolding memaligned
  posix_memalign p result alignment size =
      if not (is_power_of_two alignment)
      then (einval, (result, p))
      else memaligned result (malloc p size (max (max alignment min_alignment) min_alignment))

  unfoldable pub memalign : Process → (alignment size : ℕ) → Address × Process
  unfolding posix_memalign set_error
  memalign p alignment size =
      let (errno, (result, p')) = posix_memalign p 0 alignment size in
      (result, if is_zero result then set_error p' errno else p')

  unfoldable pub aligned_alloc :
      Process
      → (size alignment : ℕ) (einval_if_size_is_not_aligned einval_if_size_is_zero : Bool)
      → Address × Process
  unfolding memalign set_error
  aligned_alloc p size alignment einval_if_size_is_not_aligned einval_if_size_is_zero =
      if not (is_power_of_two alignment)
        || (einval_if_size_is_not_aligned && not (bit_and size (wrapping_sub alignment 1) == 0))
        || (einval_if_size_is_zero && (size == 0))
      then (0, set_error p einval)
      else memalign p alignment size

  -- The memory is cleared whatever the pointer is.
  unfoldable pub calloc : Process → (count size : ℕ) → Address × Process
  unfolding alloc_or_enomem with_mutator
  calloc p count size =
      let bytes = count * size % 2 ^ 64 in
      let (ptr, p') = alloc_or_enomem p bytes min_alignment in
      (ptr, with_mutator p' (set_memory p'.mutator (write_bytes (memory p'.mutator) ptr 0 bytes)))
