-- ===== src/Mutator.antt =====
-- mallockit/src/mutator.rs: the functions that trait `Mutator` gives an allocator.
pub mod Laws
pub mod Tests
use malloc_kit.Base.{ℕ, ◌+◌, ◌-◌, ◌≤◌, min, Bool, ◌&&◌, Option, none, some, if◌then◌else◌, leb, ltb}
use malloc_kit.Address.{Address}
use malloc_kit.Layout.{Layout}

-- Bytes of memory, by address.
abbrev pub Bytes : Type 0
Bytes = Address → ℕ

-- `ptr::write_bytes(dst, value, count)`
abbrev pub write_bytes : Bytes → Address → ℕ → ℕ → Bytes
write_bytes m dst value count a = if leb dst a && ltb a (dst + count) then value else m a

-- `ptr::copy_nonoverlapping(src, dst, count)`
abbrev pub copy_nonoverlapping : Bytes → Address → Address → ℕ → Bytes
copy_nonoverlapping m src dst count a =
    if leb dst a && ltb a (dst + count) then m (src + (a - dst)) else m a

-- What an implementation of `Mutator` and its `Plan` provide.
pub record MutatorOps : Type 1 where
  pub State : Type 0
  pub alloc : State → Layout → Option Address × State
  pub dealloc : State → Address → State
  pub get_layout : State → Address → Layout
  pub memory : State → Bytes
  pub set_memory : State → Bytes → State

module _ (ops : MutatorOps) where
  open ops use {State, alloc, dealloc, get_layout, memory, set_memory}

  unfoldable pub zero_result : ℕ → Option Address × State → Option Address × State
  zero_result size (none, s) = (none, s)
  zero_result size (some ptr, s) = (some ptr, set_memory s (write_bytes (memory s) ptr 0 size))

  unfoldable pub alloc_zeroed : State → Layout → Option Address × State
  unfolding zero_result
  alloc_zeroed s layout = zero_result layout.size (alloc s layout)

  -- The move of `realloc` after the allocation of the new block.
  unfoldable pub move_to :
      Address → (layout new_layout : Layout) → Option Address × State → Option Address × State
  move_to ptr layout new_layout (none, s) = (none, s)
  move_to ptr layout new_layout (some new_ptr, s) =
      let copied = copy_nonoverlapping (memory s) ptr new_ptr (min layout.size new_layout.size) in
      (some new_ptr, dealloc (set_memory s copied) ptr)

  unfoldable pub realloc : State → Address → Layout → Option Address × State
  realloc s ptr new_layout =
      let layout = get_layout s ptr in
      if leb new_layout.size layout.size && leb new_layout.align layout.align
      then (some ptr, s)
      else move_to ptr layout new_layout (alloc s new_layout)

  unfoldable pub realloc_zeroed : State → Address → Layout → Option Address × State
  unfolding zero_result
  realloc_zeroed s ptr new_layout = zero_result new_layout.size (realloc s ptr new_layout)
