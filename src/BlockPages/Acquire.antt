-- ===== src/BlockPages/Acquire.antt =====
-- Acquiring a block: `acquire_block` takes the head of the stack, or else cuts a new block from the space.
use native.Mathlib.Nat.{mod-eq_of_lt, add-mod_right}
use malloc_kit.Base.{
  ℕ, suc, ◌+◌, ◌-◌, ◌*◌, ◌%◌, ◌^◌, ◌≤◌, ◌<◌, ◌≡◌, ◌≢◌, inl, inr, refl, sym, ap, ◌∙◌, arith, subst,
  Bool, true, false, ==→eq, ◌==◌, leb, leb→le, leb→gt, Bool-cases, eq→==, ne→==, if◌then◌else◌,
  Option, none, some, List, [], ◌∷◌, length, pow_pos, wrapping_add, ◌<<<◌, ◌>>>◌, multiple_gap,
}
use malloc_kit.Masks.{shift_one}
use malloc_kit.Address.{Address}
use malloc_kit.Page
use malloc_kit.Chain.{Memory, Chain, has}
use malloc_kit.Chain.Laws.{Chain-store, Chain-zero}
use malloc_kit.Linked.Laws.{has-apart}
use malloc_kit.BlockPages.{
  BlockPageResource, Acquired, link, set_next, get_next, acquire_block_slow, count_acquired,
  acquire_block,
}
use malloc_kit.BlockPages.Invariant.{mul_suc, IsBlock, IsBlocks, Granted}

module _ (k : ℕ) (start : Address) where
  -- `acquire_block` by the head of the stack, and by whether the space is used up.
  abbrev acquire_fresh : BlockPageResource → Memory → Bool → Acquired
  acquire_fresh r m true = record { block = none; resource = r; memory = m }
  acquire_fresh r m false = record {
    block = some r.cursor;
    resource = count_acquired k (record r { cursor = wrapping_add r.cursor (1 <<< k) });
    memory = set_next m r.cursor none;
  }

  abbrev acquire_from : BlockPageResource → Memory → Option Address → Acquired
  acquire_from r m (some b) = record {
    block = some b;
    resource = count_acquired k (record r { head = get_next m b });
    memory = m;
  }
  acquire_from r m none = acquire_fresh r m (leb r.highwater r.cursor)

  acquire_block-eq :
      (r : BlockPageResource) (m : Memory) → acquire_block k r m ≡ acquire_from r m r.head
  unfolding acquire_block acquire_block_slow
  acquire_block-eq r m = by_head r.head
    where
      fresh :
          (used_up : Bool) (end : Address)
          → let slow : Option (Address × Address) × BlockPageResource =
              if used_up
              then (none, r)
              else (some (r.cursor, end), record r { cursor = wrapping_add r.cursor (1 <<< k) }) in
            let out : Acquired = elim slow.0 [
              | none ↦ record { block = none; resource = slow.1; memory = m }
              | some pages ↦ record {
                block = some pages.0;
                resource = count_acquired k slow.1;
                memory = set_next m pages.0 none;
              }
            ] in
            out ≡ acquire_fresh r m used_up
      fresh true end = refl
      fresh false end = refl

      by_head :
          (o : Option Address)
          → let (range, r') = acquire_block_slow k 12 r ((1 <<< k) >>> 12) in
            let out : Acquired = elim o [
              | some block ↦ record {
                block = some block;
                resource = count_acquired k (record r { head = get_next m block });
                memory = m;
              }
              | none ↦ elim range [
                | none ↦ record { block = none; resource = r'; memory = m }
                | some pages ↦ record {
                  block = some pages.0;
                  resource = count_acquired k r';
                  memory = set_next m pages.0 none;
                }
              ]
            ] in
            out ≡ acquire_from r m o
      by_head none = fresh (leb r.highwater r.cursor) (Page.forward 12 r.cursor ((1 <<< k) >>> 12))
      by_head (some b) = refl

  link-get_next : (m : Memory) (b : Address) → link (get_next m b) ≡ m b
  unfolding link get_next
  link-get_next m b = elim (Bool-cases (m b == 0)) [
    | inl null ↦ rw null (sym (==→eq (m b) 0 null))
    | inr other ↦ rw other refl
  ]

  get_next-not_null : (m : Memory) (b : Address) → get_next m b ≢ some 0
  unfolding get_next
  get_next-not_null m b e = ground (arith, e)

  -- One block more is counted.
  count_more :
      (r : BlockPageResource) (m : Memory) (free held : List Address)
      → k < 64
      → IsBlocks k start r m free held
      → wrapping_add r.reserved_bytes (1 <<< k) ≡ suc (length held) * 2 ^ k
  count_more r m free held small v =
      ap (λ (n : ℕ). wrapping_add r.reserved_bytes n) (shift_one k small)
      ∙ mod-eq_of_lt (omega (arith, v.counted, v.total, v.above, v.fits))
      ∙ omega (arith, mul_suc (length held) (2 ^ k), v.counted)

  pop_lem :
      (r : BlockPageResource) (m : Memory) (free held : List Address) (b : Address)
      → k < 64
      → IsBlocks k start r m free held
      → r.head ≡ some b
      → let out = acquire_from r m (some b) in
        Granted k start r m free held (some b) out.resource out.memory
  unfolding Granted count_acquired link
  pop_lem r m [] held b small v e = absurd (v.not_null (e ∙ ap some (sym (ap link e) ∙ v.chain)))
  pop_lem r m (c ∷ rest) held b small v e =
      subst
        (λ (x : Address).
          Granted k start r m (c ∷ rest) held (some x)
            (count_acquired k (record r { head = get_next m x })) m)
        (sym v.chain.0 ∙ ap link e)
        (
          in_stack,
          (
            rest,
            record {
              chain = subst (λ (n : ℕ). Chain m n rest) (sym (link-get_next m c)) v.chain.2;
              not_null = get_next-not_null m c;
              free_distinct = v.free_distinct.1;
              held_distinct = (in_stack, v.held_distinct);
              apart = λ a h.
                  (rw (ne→== a c (has-apart a c rest h v.free_distinct.0)) (v.apart a (later a h)));
              free_in = λ a h. v.free_in a (later a h);
              held_in = λ a h. elim (Bool-cases (a == c)) [
                | inl same ↦ v.free_in a (rw same refl)
                | inr other ↦ v.held_in a (ground arith)
              ];
              positive = v.positive;
              below = v.below;
              above = v.above;
              whole = v.whole;
              extent = v.extent;
              fits = v.fits;
              total =
                  omega
                    (arith, v.total, mul_suc (length rest) (2 ^ k), mul_suc (length held) (2 ^ k));
              counted = count_more r m (c ∷ rest) held small v;
            },
          ),
        )
    where
      in_stack : has c held ≡ false
      in_stack = v.apart c (rw (eq→== c c refl) refl)

      later : (a : Address) → has a rest ≡ true → has a (c ∷ rest) ≡ true
      later a h = ground arith

  fresh_lem :
      (r : BlockPageResource) (m : Memory) (free held : List Address)
      → k < 64
      → IsBlocks k start r m free held
      → r.head ≡ none
      → (used_up : Bool) → leb r.highwater r.cursor ≡ used_up
      → let out = acquire_fresh r m used_up in
        Granted k start r m free held out.block out.resource out.memory
  unfolding Granted count_acquired set_next link
  fresh_lem r m free held small v e true full = (
    refl,
    refl,
    Chain-zero m (link r.head) free v.chain (ap link e),
    omega (arith, leb→le r.highwater r.cursor full, v.above),
  )
  fresh_lem r m free held small v e false room =
      subst
        (λ (c : Address).
          Granted k start r m free held (some r.cursor) (count_acquired k (record r { cursor = c }))
            (set_next m r.cursor none))
        (sym moved)
        (
          new_held,
          (
            free,
            record {
              chain = Chain-store m (link r.head) r.cursor 0 free new_free v.chain;
              not_null = v.not_null;
              free_distinct = v.free_distinct;
              held_distinct = (new_held, v.held_distinct);
              apart = λ a h.
                  (rw (ne→== a r.cursor (has-apart a r.cursor free h new_free)) (v.apart a h));
              free_in = λ a h. wider a (v.free_in a h);
              held_in = λ a h. elim (Bool-cases (a == r.cursor)) [
                | inl same ↦
                    subst (IsBlock k start (r.cursor + 2 ^ k)) (sym (==→eq a r.cursor same))
                      new_block
                | inr other ↦ wider a (v.held_in a (ground arith))
              ];
              positive = v.positive;
              below = omega (arith, v.below);
              above = top;
              whole =
                  again (r.cursor - start) (r.cursor + 2 ^ k - start) (omega (arith, v.below))
                    v.whole;
              extent = v.extent;
              fits = v.fits;
              total = omega (arith, v.total, v.below, mul_suc (length held) (2 ^ k));
              counted = count_more r m free held small v;
            },
          ),
        )
    where
      under : r.cursor < r.highwater
      under = leb→gt r.highwater r.cursor room

      top : r.cursor + 2 ^ k ≤ r.highwater
      top = omega (
        arith,
        v.below,
        under,
        multiple_gap (2 ^ k) (r.cursor - start) (r.highwater - start) v.whole v.extent
            (omega (arith, v.below, under)),
      )

      moved : wrapping_add r.cursor (1 <<< k) ≡ r.cursor + 2 ^ k
      moved =
          ap (λ (n : ℕ). wrapping_add r.cursor n) (shift_one k small)
          ∙ mod-eq_of_lt (omega (arith, top, v.fits))

      new_block : IsBlock k start (r.cursor + 2 ^ k) r.cursor
      new_block = record { low = v.below; high = omega arith; aligned = v.whole }

      wider : (a : Address) → IsBlock k start r.cursor a → IsBlock k start (r.cursor + 2 ^ k) a
      wider a b = record { low = b.low; high = omega (arith, b.high); aligned = b.aligned }

      outside :
          (xs : List Address)
          → ((a : Address) → has a xs ≡ true → IsBlock k start r.cursor a)
          → has r.cursor xs ≡ false
      outside xs all = elim (Bool-cases (has r.cursor xs)) [
        | inl inside ↦ absurd (omega (arith, (all r.cursor inside).high, pow_pos k))
        | inr out ↦ out
      ]

      new_held : has r.cursor held ≡ false
      new_held = outside held v.held_in

      new_free : has r.cursor free ≡ false
      new_free = outside free v.free_in

      again : (n n' : ℕ) → n' ≡ n + 2 ^ k → n % 2 ^ k ≡ 0 → n' % 2 ^ k ≡ 0
      again n n' e h = ap (λ (x : ℕ). x % 2 ^ k) e ∙ add-mod_right n (2 ^ k) ∙ h

  -- Acquiring a block returns one that is not held, and afterwards it is; none is returned only when every block of the
  -- space is held, and then neither the space nor the memory changes. Blocks are inside the space at multiples of their
  -- size, the stack and the held blocks are disjoint and are all the blocks below the cursor, and the count of bytes is
  -- that of the held blocks. Blocks are smaller than 2^64.
  pub acquire_block-IsBlocks :
      (r : BlockPageResource) (m : Memory) (free held : List Address)
      → k < 64
      → IsBlocks k start r m free held
      → let out = acquire_block k r m in
        Granted k start r m free held out.block out.resource out.memory
  acquire_block-IsBlocks r m free held small v =
      subst (λ (out : Acquired). Granted k start r m free held out.block out.resource out.memory)
        (sym (acquire_block-eq r m)) (by_head r.head refl)
    where
      by_head :
          (o : Option Address)
          → r.head ≡ o
          → let out = acquire_from r m o in
            Granted k start r m free held out.block out.resource out.memory
      by_head none e = fresh_lem r m free held small v e (leb r.highwater r.cursor) refl
      by_head (some b) e = pop_lem r m free held b small v e
