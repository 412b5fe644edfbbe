-- ===== src/MallocApi/Laws.antt =====
-- What the C functions return, and which error they report.
use malloc_kit.Base.{
  ℕ, ◌+◌, ◌*◌, ◌%◌, ◌^◌, ◌≤◌, ◌<◌, ◌≡◌, ◌≢◌, max, true, false, Option, none, some, arith, refl, ◌∙◌,
  ◌⊎◌, inl, inr, Bool-cases, is_power_of_two, ne→==, subst,
}
use malloc_kit.Address.{Address}
use malloc_kit.Address
use malloc_kit.Layout.{Layout, from_size_align}
use malloc_kit.Mutator.{write_bytes, MutatorOps}
use malloc_kit.Mutator.Laws.{IsAllocator, Reallocated, realloc_lem, zero_at}
use malloc_kit.MallocApi.{
  min_alignment, enomem, einval, align_up, request, Process, malloc, alloc_or_enomem, or_enomem,
  outcome, reallocated, reallocate_or_enomem, memaligned, posix_memalign, set_error, with_mutator,
  calloc,
}

module _ (ops : MutatorOps) (law : IsAllocator ops) where
  open ops use {State, alloc, dealloc, get_layout, memory, set_memory}
  open law use {Live}

  -- The result of an allocation as an error number and a pointer.
  unfoldable pub Granted : Address → Layout → ℕ × (Address × Process ops) → Type 0
  Granted old l (code, (result, p)) =
      (code ≡ 0
        × law.Valid p.mutator
        × ((block : Layout) × Live p.mutator result block
            × (l.size ≤ block.size)
            × (result % l.align ≡ 0)))
      ⊎ (code ≡ enomem × law.Valid p.mutator × (result ≡ old))

  Granted-of :
      (p : Process ops) (old : Address) (l : Layout) (r : Option Address × State)
      → law.Valid p.mutator
      → law.Serves l
      → alloc p.mutator l ≡ r
      → Granted old l (memaligned ops old (outcome ops p r))
  unfolding Granted memaligned outcome
  Granted-of p old l (none, s) ok serves eq =
      inr (refl, (law.alloc_keeps p.mutator s l none ok serves eq).0, refl)
  Granted-of p old l (some ptr, s) ok serves eq = inl (
    refl,
    (law.alloc_keeps p.mutator s l (some ptr) ok serves eq).0,
    law.alloc_law p.mutator s l ptr ok serves eq,
  )

  -- `posix_memalign` reports EINVAL exactly when the alignment is not a power of two, and then does nothing. Otherwise
  -- it stores a live block that holds the rounded size and is aligned as asked, and to 16 at least, or it reports
  -- ENOMEM; on every error the result is left as it was. The plan is to serve the layout that is asked of it. The state
  -- is one that is reached.
  pub posix_memalign_lem :
      (p : Process ops) (old : Address) (alignment size : ℕ)
      → law.Valid p.mutator
      → (is_power_of_two alignment ≡ true → law.Serves (request size (max alignment min_alignment)))
      → let r = posix_memalign ops p old alignment size in
        (is_power_of_two alignment ≡ false × (r ≡ (einval, (old, p))))
        ⊎ (is_power_of_two alignment ≡ true
            × Granted old (request size (max alignment min_alignment)) r)
  unfolding posix_memalign malloc
  posix_memalign_lem p old alignment size ok serves =
      elim (Bool-cases (is_power_of_two alignment)) [
        | inl power ↦ inr (
          power,
          rw (power, max_twice alignment min_alignment)
              (Granted-of p old (request size (max alignment min_alignment)) _ ok (serves power)
                refl),
        )
        | inr other ↦ inl (other, rw other refl)
      ]
    where
      max_twice : (m n : ℕ) → max (max m n) n ≡ max m n
      max_twice m n = omega arith

  -- The result of `reallocate_or_enomem` for a block that is moved or kept.
  unfoldable pub ReallocatedApi :
      Process ops → Address → (layout new_layout : Layout) → Address × Process ops → Type 0
  ReallocatedApi p ptr layout new_layout (result, p') =
      (result ≡ 0
        × (p'.errno ≡ enomem)
        × Reallocated ops law p.mutator ptr layout new_layout (none, p'.mutator))
      ⊎ (p'.errno ≡ p.errno
          × Reallocated ops law p.mutator ptr layout new_layout (some result, p'.mutator))

  api_of :
      (p : Process ops) (ptr : Address) (layout new_layout : Layout) (r : Option Address × State)
      → Reallocated ops law p.mutator ptr layout new_layout r
      → ReallocatedApi p ptr layout new_layout (reallocated ops false p ptr r)
  unfolding reallocated ReallocatedApi
  api_of p ptr layout new_layout (none, s) h = inl (refl, refl, h)
  api_of p ptr layout new_layout (some new_ptr, s) h = inr (refl, h)

  -- `realloc` of C on a live block, for a size that is not 0 and that the plan serves: it returns a live block that
  -- holds the rounded size and begins with the old bytes, or it returns null and sets ENOMEM, and then the old block is
  -- live and unchanged. The other live blocks are kept. The pointer is not null, and the state is one that is reached.
  pub reallocate_or_enomem_lem :
      (p : Process ops) (ptr : Address) (layout : Layout) (new_size : ℕ)
      → law.Valid p.mutator
      → law.Serves (from_size_align (align_up new_size min_alignment) min_alignment)
      → Live p.mutator ptr layout
      → ptr ≢ 0
      → new_size ≢ 0
      → ReallocatedApi p ptr layout
          (from_size_align (align_up new_size min_alignment) min_alignment)
          (reallocate_or_enomem ops p ptr new_size true false)
  unfolding reallocate_or_enomem
  reallocate_or_enomem_lem p ptr layout new_size ok serves live ne some_size =
      rw (ne→== ptr 0 ne, ne→== new_size 0 some_size)
        (api_of p ptr layout (from_size_align (align_up new_size min_alignment) min_alignment) _ (
          realloc_lem ops law p.mutator ptr layout
            (from_size_align (align_up new_size min_alignment) min_alignment) ok serves live))

  -- When the allocation fails, `calloc` clears the memory from address 0 on before it returns null.
  calloc-failure :
      (p : Process ops) (count size : ℕ) (s : State)
      → alloc p.mutator (request (count * size % 2 ^ 64) min_alignment) ≡ (none, s)
      → let (ptr, p') = calloc ops p count size in
        (ptr ≡ 0)
        × (p'.errno ≡ enomem)
        × ((i : ℕ) → i < count * size % 2 ^ 64 → memory p'.mutator i ≡ 0)
  unfolding calloc alloc_or_enomem malloc or_enomem outcome set_error with_mutator
  calloc-failure p count size s failed = rw failed (
    refl,
    refl,
    λ (i : ℕ) (h : i < count * size % 2 ^ 64).
        let n : ℕ = count * size % 2 ^ 64 in
        law.set_memory_law s (write_bytes (memory s) 0 0 n) i
        ∙ subst (λ (a : ℕ). write_bytes (memory s) 0 0 n a ≡ 0) (from_zero i)
            (zero_at (memory s) 0 n i h),
  )
    where
      from_zero : (i : ℕ) → 0 + i ≡ i
      from_zero i = omega arith
