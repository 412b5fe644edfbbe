-- ===== src/Bump.antt =====
-- mallockit/src/space/immortal_space.rs: `BumpAllocator`. `bump/src/lib.rs` passes every request on to it,
-- and frees nothing.
pub mod Laws
mod Tests
use malloc_kit.Base.{
  ℕ, ◌+◌, ◌^◌, max, Bool, true, false, Option, none, some, if◌then◌else◌, ◌>>>◌, wrapping_add,
}
use malloc_kit.Address.{Address}
use malloc_kit.Layout.{Layout}
use malloc_kit.Area.{Area, empty, Headers, align_value, alloc_with_layout}

pub record BumpAllocator : Type 0 where
  pub area : Area
  pub retry : Bool

abbrev pub new : BumpAllocator
new = record { area = empty; retry = false }

-- `panicked` is the failure of `assert!(!self.retry)`.
pub data Outcome : Type 0 where
  granted : Address → Outcome
  refused panicked : Outcome

abbrev pub State : Type 0
State = Outcome × BumpAllocator × Headers

-- The pages of 2 MB that a request acquires; 16 is `size_of::<Layout>()`.
unfoldable pub pages_for : Layout → ℕ
pages_for layout = align_value (wrapping_add (max layout.size (2 ^ 21)) 16) (2 ^ 21) >>> 21

-- `alloc` and `alloc_slow` call each other. `slow` is what follows where the area is too small.
unfoldable pub alloc_or : State → BumpAllocator → Headers → Layout → State
alloc_or slow b m layout =
    let (found, area, m') = alloc_with_layout b.area m layout in
    elim found [ some p ↦ (granted p, record b { area = area }, m') | none ↦ slow ]

-- What `space.acquire::<Size2M>` returns: the start and the end of the pages.
module _ (acquire : ℕ → Option (Address × Address)) where
  -- The recursive call of `alloc_slow` runs with `retry` set, and a second miss panics.
  unfoldable pub refill : BumpAllocator → Headers → Layout → Address × Address → State
  unfolding alloc_or
  refill b m layout (top, limit) =
      let b' = record b { area = record { top = top; limit = limit }; retry = true } in
      let (outcome, b'', m') = alloc_or (panicked, b', m) b' m layout in
      (outcome, record b'' { retry = false }, m')

  unfoldable pub alloc_slow : BumpAllocator → Headers → Layout → State
  alloc_slow b m layout = if b.retry then (panicked, b, m) else elim (acquire (pages_for layout)) [
    | none ↦ (refused, b, m)
    | some pages ↦ refill b m layout pages
  ]

  unfoldable pub alloc : BumpAllocator → Headers → Layout → State
  alloc b m layout = alloc_or (alloc_slow b m layout) b m layout
