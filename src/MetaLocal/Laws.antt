-- ===== src/MetaLocal/Laws.antt =====
-- Two rounds find a cell, and a block leads back to its cell.
use native.Mathlib.Nat.{zero-mod, div-add-mod}
use malloc_kit.Base.{
  ℕ, zero, suc, ◌+◌, ◌-◌, ◌*◌, ◌/◌, ◌%◌, ◌^◌, ◌≤◌, ◌<◌, ◌≡◌, ◌≢◌, ◌⊎◌, inl, inr, arith, refl, sym,
  ◌∙◌, ap, subst, Option, none, some, length, get_or, set, get_or-set_self, eq→==, ne→==, pow_pos,
  ◌<<<◌, next_power_of_two, trailing_zeros, log_ceil,
}
use malloc_kit.Powers.{
  pow-log_ceil_bounds, next_power_of_two-eq-pow, trailing_zeros-pow, log_ceil-le, exponent_le,
}
use malloc_kit.Masks.{shift_one}
use malloc_kit.Address.{Address, align_up, align_down}
use malloc_kit.Address.Align.{align_up_least, align_down-eq, aligned_weaken}
use malloc_kit.Base.{multiple_gap}
use malloc_kit.Chain.Bins.{class-cases}
use malloc_kit.MetaLocal.{
  MetaLocal, num_size_class, size_class, with_space, pop_cell, push_cell, split, search,
  allocate_cell_slow,
}

-- A multiple of the alignment is its own rounding.
align_up_self : (a k : ℕ) → k < 64 → a + 2 ^ k ≤ 2 ^ 64 → a % 2 ^ k ≡ 0 → align_up a (2 ^ k) ≡ a
align_up_self a k small fits aligned =
    let least = align_up_least k a small (omega (arith, pow_pos k)) in
    elim (either a (align_up a (2 ^ k)) least.1) [
      | inl same ↦ sym same
      | inr more ↦
          absurd (
            omega
              (arith, multiple_gap (2 ^ k) a (align_up a (2 ^ k)) aligned least.0 more, least.2))
    ]
  where
    either : (m n : ℕ) → m ≤ n → (m ≡ n) ⊎ (m < n)
    either m n h = omega arith

-- The cell of a class, which is aligned to its size, is large enough for the padded layout, is where the block
-- starts, and is found again from it.
cell_of_block_lem :
    (cell padded a : ℕ)
    → 1 ≤ padded
    → padded ≤ 4096
    → padded % 2 ^ a ≡ 0
    → cell % 2 ^ size_class padded ≡ 0
    → cell + 4096 ≤ 2 ^ 63
    → (padded ≤ 2 ^ size_class padded)
      × (align_up cell (2 ^ a) ≡ cell)
      × (align_down (align_up cell (2 ^ a)) (1 <<< size_class padded) ≡ cell)
unfolding size_class
cell_of_block_lem cell padded a some_bytes small multiple aligned fits =
    let k : ℕ = log_ceil padded in
    let class : trailing_zeros (next_power_of_two padded) ≡ k =
      ap trailing_zeros (next_power_of_two-eq-pow padded (omega (arith, small)))
      ∙ trailing_zeros-pow k (omega (arith, log_ceil-le padded 12 (omega (arith, small)) small)) in
    let k_small : k ≤ 12 = log_ceil-le padded 12 (omega (arith, small)) small in
    let bounds = pow-log_ceil_bounds padded some_bytes (omega (arith, small)) in
    let one : 2 ^ a ≤ padded =
      omega (arith, multiple_gap (2 ^ a) 0 padded (zero-mod (2 ^ a)) multiple some_bytes) in
    let le : a ≤ k = exponent_le a k padded one bounds.0 in
    let page : 2 ^ a ≤ 4096 = omega (arith, one, small) in
    let at_cell : cell % 2 ^ k ≡ 0 = subst (λ (c : ℕ). cell % 2 ^ c ≡ 0) class aligned in
    let up : align_up cell (2 ^ a) ≡ cell =
      align_up_self cell a (omega (arith, le, k_small)) (omega (arith, page, fits))
        (aligned_weaken k a cell le at_cell) in
    let down : align_down cell (2 ^ k) ≡ cell =
      align_down-eq k cell (omega (arith, k_small)) (omega (arith, fits))
      ∙ whole cell (2 ^ k) at_cell in
    rw (class, up, shift_one k (omega (arith, k_small))) (bounds.0, refl, down)
  where
    whole : (n d : ℕ) → n % d ≡ 0 → n / d * d ≡ n
    whole n d h = omega (arith, div-add-mod n d, h)

module _ {S : Type 0} (map : S → ℕ → Option Address × S) (unmap : S → Address → ℕ → S) where
  pop-null :
      (l : MetaLocal map unmap) (c : ℕ)
      → get_or l.freelist c 0 ≡ 0
      → pop_cell map unmap l c ≡ (none, l)
  unfolding pop_cell
  pop-null l c null = rw (eq→== (get_or l.freelist c 0) 0 null) refl

  pop-cell :
      (l : MetaLocal map unmap) (c : ℕ)
      → get_or l.freelist c 0 ≢ 0
      → (pop_cell map unmap l c).0 ≡ some (get_or l.freelist c 0)
  unfolding pop_cell
  pop-cell l c cell = rw (ne→== (get_or l.freelist c 0) 0 cell) refl

  search-null :
      (l : MetaLocal map unmap) (request offset left : ℕ)
      → get_or l.freelist (request + offset) 0 ≡ 0
      → search map unmap l request offset (suc left) ≡ search map unmap l request (suc offset) left
  unfolding search
  search-null l request offset left null =
      ap
        (λ (r : Option Address × MetaLocal map unmap).
          let further = search map unmap r.1 request (suc offset) left in
          let out : Option Address × MetaLocal map unmap = elim r.0 [
            | none ↦ further
            | some cell ↦ (some cell, split map unmap r.1 cell request offset)
          ] in
          out)
        (pop-null l (request + offset) null)

  search-cell :
      (l : MetaLocal map unmap) (request offset left : ℕ)
      → get_or l.freelist (request + offset) 0 ≢ 0
      → (search map unmap l request offset (suc left)).0
        ≡ some (get_or l.freelist (request + offset) 0)
  unfolding search
  search-cell l request offset left cell =
      let r : Option Address × MetaLocal map unmap = pop_cell map unmap l (request + offset) in
      ap
        (λ (o : Option Address).
          let further = search map unmap r.1 request (suc offset) left in
          let out : Option Address × MetaLocal map unmap = elim o [
            | none ↦ further
            | some cell ↦ (some cell, split map unmap r.1 cell request offset)
          ] in
          out.0)
        (pop-cell l (request + offset) cell)

  some_is_not_none : {a : Address} {r : Option Address} → r ≡ some a → r ≡ none → ⊥
  some_is_not_none e f = cc

  -- A search that fails leaves the lists as they were, and they are empty.
  search_lem :
      (l : MetaLocal map unmap) (request offset left : ℕ)
      → (search map unmap l request offset left).0 ≡ none
      → ((search map unmap l request offset left).1 ≡ l)
        × ((i : ℕ) → request + offset ≤ i → i < request + offset + left → get_or l.freelist i 0 ≡ 0)
  unfolding search
  search_lem l request offset zero failed =
      (refl, λ (i : ℕ) low high. absurd (omega (arith, low, high)))
  search_lem l request offset (suc left) failed =
      let head : Address = get_or l.freelist (request + offset) 0 in
      elim (class-cases head 0) [
        | inl null ↦
            let step = search-null l request offset left null in
            let rest = search_lem l request (suc offset) left (ap (λ r. r.0) (sym step) ∙ failed) in
            (
              ap (λ r. r.1) step ∙ rest.0,
              λ (i : ℕ) (low : request + offset ≤ i) (high : i < request + offset + suc left).
                  elim (either i low) [
                    | inl here ↦ ap (λ (j : ℕ). get_or l.freelist j 0) here ∙ null
                    | inr later ↦ rest.1 i later (omega (arith, high))
                  ],
            )
        | inr cell ↦ absurd (some_is_not_none (search-cell l request offset left cell) failed)
      ]
    where
      either : (i : ℕ) → request + offset ≤ i → (i ≡ request + offset) ⊎ (request + suc offset ≤ i)
      either i h = omega (arith, h)

  -- The slow allocation, by what the search and the space returned.
  unfoldable slow_step :
      (fuel : ℕ) (l : MetaLocal map unmap) (request : ℕ)
      → Option Address × MetaLocal map unmap
      → Option Address × S
      → Option Address × MetaLocal map unmap
  slow_step fuel l request (some cell, l') page = (some cell, l')
  slow_step fuel l request (none, l') (none, s) = (none, with_space map unmap l' s)
  slow_step fuel l request (none, l') (some start, s) =
      allocate_cell_slow map unmap fuel
        (push_cell map unmap (with_space map unmap l' s) start (size_class 4096)) request

  slow_step-eq :
      (fuel : ℕ) (l : MetaLocal map unmap) (request : ℕ)
      → let r = search map unmap l request 0 (num_size_class - request) in
        allocate_cell_slow map unmap (suc fuel) l request
        ≡ slow_step fuel l request r (map r.1.space 1)
  unfolding allocate_cell_slow slow_step
  slow_step-eq fuel l request = by_result (search map unmap l request 0 (num_size_class - request))
    where
      by_page :
          (l' : MetaLocal map unmap) (page : Option Address × S)
          → elim page.0 [
            | none ↦ (none, with_space map unmap l' page.1)
            | some start ↦
                allocate_cell_slow map unmap fuel
                  (push_cell map unmap (with_space map unmap l' page.1) start (size_class 4096))
                  request
          ]
            ≡ slow_step fuel l request (none, l') page
      by_page l' (none, s) = refl
      by_page l' (some start, s) = refl

      by_result :
          (r : Option Address × MetaLocal map unmap)
          → elim r.0 [
            | some cell ↦ (some cell, r.1)
            | none ↦ elim (map r.1.space 1).0 [
              | none ↦ (none, with_space map unmap r.1 (map r.1.space 1).1)
              | some start ↦
                  allocate_cell_slow map unmap fuel
                    (push_cell map unmap
                      (with_space map unmap r.1 (map r.1.space 1).1)
                      start
                      (size_class 4096))
                    request
            ]
          ]
            ≡ slow_step fuel l request r (map r.1.space 1)
      by_result (some cell, l') = refl
      by_result (none, l') = by_page l' (map l'.space 1)

  -- In a state whose largest list is not empty, a slow allocation finds a cell in its first round.
  found_lem :
      (fuel : ℕ) (l : MetaLocal map unmap) (request : ℕ)
      → request ≤ 12
      → get_or l.freelist 12 0 ≢ 0
      → (allocate_cell_slow map unmap (suc fuel) l request).0 ≡ none
      → ⊥
  unfolding slow_step
  found_lem fuel l request small cell failed =
      by_result (search map unmap l request 0 (13 - request)) refl
        (ap (λ r. r.0) (sym (slow_step-eq fuel l request)) ∙ failed)
    where
      by_result :
          (r : Option Address × MetaLocal map unmap)
          → search map unmap l request 0 (13 - request) ≡ r
          → (slow_step fuel l request r (map r.1.space 1)).0 ≡ none
          → ⊥
      by_result (some c, l') eq h = some_is_not_none refl h
      by_result (none, l') eq h = cell (
          (search_lem l request 0 (13 - request) (ap (λ r. r.0) eq)).1 12 (omega (arith, small))
            (omega (arith, small)))

  largest_class : size_class 4096 ≡ 12
  unfolding size_class next_power_of_two trailing_zeros
  largest_class = refl

  -- With fuel for two rounds, an allocation of a cell of at most a page fails only when no page could be mapped: a page that is mapped
  -- when no cell is large enough serves it. This asks that mapped pages are not at the null address.
  allocate_cell_slow_lem :
      (fuel : ℕ) (l : MetaLocal map unmap) (request : ℕ)
      → ((s s' : S) (page : Address) → map s 1 ≡ (some page, s') → page ≢ 0)
      → length l.freelist ≡ num_size_class
      → request ≤ 12
      → (allocate_cell_slow map unmap (suc (suc fuel)) l request).0 ≡ none
      → (map l.space 1).0 ≡ none
  unfolding slow_step push_cell with_space
  allocate_cell_slow_lem fuel l request not_null whole small failed =
      by_result (search map unmap l request 0 (13 - request)) refl
        (ap (λ r. r.0) (sym (slow_step-eq (suc fuel) l request)) ∙ failed)
    where
      refilled :
          (l' : MetaLocal map unmap) (start : Address)
          → length l'.freelist ≡ 13
          → get_or (push_cell map unmap l' start (size_class 4096)).freelist 12 0 ≡ start
      refilled l' start size =
          subst (λ (c : ℕ). get_or (set l'.freelist c start) 12 0 ≡ start) (sym largest_class)
            (get_or-set_self l'.freelist 12 start 0 (omega (arith, size)))

      by_page :
          (l' : MetaLocal map unmap) (page : Option Address × S)
          → map l'.space 1 ≡ page
          → length l'.freelist ≡ 13
          → (slow_step (suc fuel) l request (none, l') page).0 ≡ none
          → page.0 ≡ none
      by_page l' (none, s) eq size h = refl
      by_page l' (some start, s) eq size h = absurd (
          found_lem fuel (push_cell map unmap (with_space map unmap l' s) start (size_class 4096))
            request small
            (λ null.
              not_null l'.space s start eq
                (sym (refilled (with_space map unmap l' s) start size) ∙ null))
            h)

      by_result :
          (r : Option Address × MetaLocal map unmap)
          → search map unmap l request 0 (13 - request) ≡ r
          → (slow_step (suc fuel) l request r (map r.1.space 1)).0 ≡ none
          → (map l.space 1).0 ≡ none
      by_result (some c, l') eq h = absurd (some_is_not_none refl h)
      by_result (none, l') eq h =
          let same : l' ≡ l =
            ap (λ r. r.1) (sym eq) ∙ (search_lem l request 0 (13 - request) (ap (λ r. r.0) eq)).0 in
          ap (λ (k : MetaLocal map unmap). (map k.space 1).0) (sym same)
          ∙ by_page l' (map l'.space 1) refl
              (ap (λ (k : MetaLocal map unmap). length k.freelist) same ∙ whole) h
