-- ===== src/Arena.antt =====
-- mallockit/src/util/mem/alloc/arena.rs: `Arena`, cells of one size on a free list that is linked through them. A page
-- of 4 KB is cut when the list is empty. The source of pages is a parameter, without a page the source panics.
use malloc_kit.Base.{
  ℕ, zero, suc, ◌*◌, ◌/◌, Option, none, some, if◌then◌else◌, wrapping_add, next_power_of_two,
}
use malloc_kit.Address.{Address, zero_address, is_zero}
use malloc_kit.Chain.{Memory, store}

pub record Arena : Type 0 where
  pub freelist : Address

unfoldable pub new : Arena
new = record { freelist = zero_address }

unfoldable pub push : Arena → Memory → Address → Arena × Memory
push arena m cell = (record { freelist = cell }, store m cell arena.freelist)

unfoldable pub pop : Arena → Memory → Option Address × Arena
pop arena m =
    if is_zero arena.freelist
    then (none, arena)
    else (some arena.freelist, record { freelist = m arena.freelist })

-- The loop over a page, from cell `i` on, for `left` more cells.
unfoldable pub push_cells : Arena → Memory → (page obj_size i left : ℕ) → Arena × Memory
push_cells arena m page obj_size i zero = (arena, m)
push_cells arena m page obj_size i (suc left) =
    let (arena', m') = push arena m (wrapping_add page (i * obj_size)) in
    push_cells arena' m' page obj_size (suc i) left

module _ {S : Type 0} (map_anonymous : S → Option Address × S) where
  -- `size` is `size_of::<T>()`, which is at most a page.
  unfoldable pub alloc_slow : Arena → Memory → S → ℕ → Option Address × Arena × Memory × S
  alloc_slow arena m s size =
      let obj_size = next_power_of_two size in
      let (mapped, s') = map_anonymous s in
      elim mapped [
        | none ↦ (none, arena, m, s')
        | some page ↦
            let (arena', m') = push_cells arena m page obj_size 0 (4096 / obj_size) in
            let (cell, arena'') = pop arena' m' in (cell, arena'', m', s')
      ]

  -- The cell of a new object; the object is written into it afterwards.
  unfoldable pub alloc : Arena → Memory → S → ℕ → Option Address × Arena × Memory × S
  alloc arena m s size =
      let (found, arena') = pop arena m in
      elim found [ some cell ↦ (some cell, arena', m, s) | none ↦ alloc_slow arena' m s size ]

unfoldable pub dealloc : Arena → Memory → Address → Arena × Memory
dealloc arena m cell = push arena m cell
