-- ===== src/Buddy.antt =====
-- mallockit/src/util/mem/freelist/abstract_freelist.rs: `InternalAbstractFreeList`, a binary buddy allocator of
-- units over the cell lists that an implementation provides.
pub mod Units
pub mod Cover
pub mod Tidy
pub mod Allocate
pub mod Release
pub mod Rounds
pub mod Ranges
pub mod LazyBst
pub mod Tests
use malloc_kit.Base.{
  ℕ, zero, suc, ◌+◌, ◌-◌, ◌^◌, bit_and, bit_or, bit_xor, max, min, Bool, true, ◌&&◌, Option, none,
  some, if◌then◌else◌, ltb, leb, ◌==◌, bit_not, ◌<<<◌, ◌>>>◌, wrapping_add, wrapping_sub,
  next_power_of_two, trailing_zeros,
}

-- `Unit` is a number of units from the base.
unfoldable pub parent : ℕ → ℕ → ℕ
parent unit size_class = bit_and unit (bit_not (1 <<< size_class))

unfoldable pub is_aligned : ℕ → ℕ → Bool
is_aligned unit size_class = bit_and unit (wrapping_sub (1 <<< size_class) 1) == 0

unfoldable pub sibling : ℕ → ℕ → ℕ
sibling unit size_class = bit_xor unit (1 <<< size_class)

-- What the trait asks of an implementation, over the implementation's state.
pub record FreeList : Type 1 where
  pub State : Type 0
  pub min_size_class : ℕ
  pub num_size_class : ℕ
  -- `NON_COALESCEABLE_SIZE_CLASS_THRESHOLD`
  pub threshold : ℕ
  pub is_free : State → ℕ → ℕ → Bool
  pub set_as_free : State → ℕ → ℕ → State
  pub set_as_used : State → ℕ → ℕ → State
  pub pop_cell : State → ℕ → Option ℕ × State
  pub push_cell : State → ℕ → ℕ → State
  pub remove_cell : State → ℕ → ℕ → State
  -- The state after `split_cell`, whose units are the parent and its sibling.
  pub split_cell : State → ℕ → ℕ → State

-- A range of units.
pub record UnitRange : Type 0 where
  pub start : ℕ
  pub end : ℕ

module _ (f : FreeList) where
  open f use {
    State, min_size_class, num_size_class, threshold, is_free, set_as_free, set_as_used, pop_cell,
    push_cell, remove_cell, split_cell,
  }

  unfoldable pub unit_to_index : ℕ → ℕ → ℕ
  unit_to_index unit size_class =
      wrapping_add (1 <<< (num_size_class - size_class - 1)) (unit >>> size_class)

  unfoldable pub push : State → ℕ → ℕ → State
  push s unit size_class = set_as_free (push_cell s unit size_class) unit size_class

  unfoldable pub pop : State → ℕ → Option ℕ × State
  pop s size_class =
      let (found, s') = pop_cell s size_class in
      elim found [ none ↦ (none, s') | some unit ↦ (some unit, set_as_used s' unit size_class) ]

  unfoldable pub remove : State → ℕ → ℕ → State
  remove s unit size_class = set_as_used (remove_cell s unit size_class) unit size_class

  -- The splitting loop, from `request + rounds` down to `request`: each round gives the second half
  -- of the cell back, one class lower.
  unfoldable pub split_down : State → ℕ → ℕ → ℕ → State
  split_down s unit request zero = s
  split_down s unit request (suc rounds) =
      let child = request + rounds in
      split_down (push (split_cell s unit (suc child)) (sibling unit child) child) unit request
        rounds

  -- The search of `allocate_aligned_units_slow` from `request + offset` on, for `left` more classes.
  unfoldable pub search_classes : State → (request offset left : ℕ) → Option ℕ × State
  search_classes s request offset zero = (none, s)
  search_classes s request offset (suc left) =
      let (found, s') = pop s (request + offset) in
      let further = search_classes s' request (suc offset) left in
      elim found [ none ↦ further | some unit ↦ (some unit, split_down s' unit request offset) ]

  unfoldable pub allocate_aligned_units_slow : State → ℕ → Option ℕ × State
  allocate_aligned_units_slow s request = search_classes s request 0 (suc threshold - request)

  unfoldable pub allocate_aligned_units : State → ℕ → Option ℕ × State
  allocate_aligned_units s size_class =
      if ltb threshold size_class
      then (none, s)
      else let (found, s') = pop s size_class in
        elim found [
          | none ↦ allocate_aligned_units_slow s' size_class
          | some unit ↦ (some unit, s')
        ]

  -- The coalescing loop, with fuel for the classes that are left.
  unfoldable pub release_loop : ℕ → State → ℕ → ℕ → State
  release_loop zero s unit size_class = push s unit size_class
  release_loop (suc fuel) s unit size_class =
      let merged =
        release_loop fuel (remove s (sibling unit size_class) size_class) (parent unit size_class)
          (suc size_class) in
      if ltb size_class threshold && is_free s (sibling unit size_class) size_class
      then merged
      else push s unit size_class

  unfoldable pub release_aligned_units : State → ℕ → ℕ → State
  release_aligned_units s unit size_class = release_loop (threshold - size_class) s unit size_class

  unfoldable pub size_class : ℕ → ℕ
  size_class units = max (trailing_zeros (next_power_of_two units)) min_size_class

  unfoldable pub allocate_cell_aligned_size : State → ℕ → Option UnitRange × State
  allocate_cell_aligned_size s units =
      let (found, s') = allocate_aligned_units s (size_class units) in
      elim found [
        | none ↦ (none, s')
        | some start ↦ (some (record { start = start; end = wrapping_add start units }), s')
      ]

  unfoldable pub release_cell_aligned_size : State → ℕ → ℕ → State
  release_cell_aligned_size s start units = release_aligned_units s start (size_class units)

  -- One round of `release_cell_unaligned_size`: the class of the cell that is released at the start of the rest.
  unfoldable pub release_class : (start units : ℕ) → ℕ
  release_class start units =
      let curr_size_class = size_class units in
      let prev_size_class =
        if units == (1 <<< curr_size_class) then curr_size_class else curr_size_class - 1 in
      min prev_size_class (trailing_zeros start)

  -- The loop, with fuel for the units that are left; `units` is the distance from `start` to the limit.
  unfoldable pub release_range : ℕ → State → (start units : ℕ) → State
  release_range zero s start units = s
  release_range (suc fuel) s start units =
      let class = release_class start units in
      let size = 1 <<< class in
      let rest =
        release_range fuel (release_aligned_units s start class) (wrapping_add start size)
          (units - size) in
      if ltb 0 units then rest else s

  unfoldable pub release_cell_unaligned_size : State → ℕ → ℕ → State
  release_cell_unaligned_size s start units = release_range units s start units

  unfoldable pub allocate_cell_unaligned_size : State → ℕ → Option UnitRange × State
  allocate_cell_unaligned_size s requested =
      let mask = wrapping_sub (1 <<< min_size_class) 1 in
      let units = bit_and (wrapping_add requested mask) (bit_not mask) in
      let class = size_class units in
      let (found, s') = allocate_aligned_units s class in
      elim found [
        | none ↦ (none, s')
        | some start ↦ (
          some (record { start = start; end = wrapping_add start units }),
          if units == (1 <<< class)
              then release_cell_unaligned_size s' (wrapping_add start units)
                  (wrapping_sub (1 <<< class) units)
              else s',
        )
      ]
