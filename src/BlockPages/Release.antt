-- ===== src/BlockPages/Release.antt =====
-- Releasing a block: `release_block`.
use malloc_kit.Base.{
  ℕ, ◌+◌, ◌*◌, ◌^◌, ◌<◌, ◌≡◌, ◌≢◌, inl, inr, sym, ap, ◌∙◌, arith, subst, true, false, not, ◌&&◌,
  ==→eq, ◌==◌, Bool-cases, List, ◌∷◌, length, ◌<<<◌,
}
use malloc_kit.Masks.{shift_one}
use malloc_kit.Address.{Address}
use malloc_kit.Chain.{Memory, has}
use malloc_kit.Chain.Laws.{Chain-push}
use malloc_kit.Linked.{erase}
use malloc_kit.Linked.Laws.{some-inj, has-erase, Distinct-erase, length-erase}
use malloc_kit.BlockPages.{BlockPageResource, link, set_next, release_block}
use malloc_kit.BlockPages.Invariant.{mul_suc, wraps, IsBlock, IsBlocks}

module _ (k : ℕ) (start : Address) where
  -- Releasing a held block puts it on the stack, and the count of bytes is that of the blocks still held.
  pub release_block-IsBlocks :
      (r : BlockPageResource) (m : Memory) (free held : List Address) (b : Address)
      → k < 64
      → IsBlocks k start r m free held
      → has b held ≡ true
      → let (r', m') = release_block k r m b in IsBlocks k start r' m' (b ∷ free) (erase b held)
  unfolding release_block set_next link
  release_block-IsBlocks r m free held b small v there = record {
    chain = Chain-push m (link r.head) b free b_pos b_out v.chain;
    not_null = λ e. b_pos (some-inj b 0 e);
    free_distinct = (b_out, v.free_distinct);
    held_distinct = Distinct-erase b held v.held_distinct;
    apart = λ a h. (has-erase a b held v.held_distinct ∙ separate a h);
    free_in = λ a h. elim (Bool-cases (a == b)) [
      | inl same ↦ subst (IsBlock k start r.cursor) (sym (==→eq a b same)) block
      | inr other ↦ v.free_in a (ground arith)
    ];
    held_in = λ a h. v.held_in a (still a (has-erase a b held v.held_distinct) h);
    positive = v.positive;
    below = v.below;
    above = v.above;
    whole = v.whole;
    extent = v.extent;
    fits = v.fits;
    total = omega (arith, v.total, fewer, mul_suc (length free) (2 ^ k));
    counted =
        wraps (2 ^ k) (1 <<< k) r.reserved_bytes (length (erase b held) * 2 ^ k) (shift_one k small)
          (omega (arith, v.counted, fewer)) (omega (arith, v.counted, v.total, v.above, v.fits));
  }
    where
      block : IsBlock k start r.cursor b
      block = v.held_in b there

      b_pos : b ≢ 0
      b_pos e = absurd (omega (arith, e, block.low, v.positive))

      b_out : has b free ≡ false
      b_out = elim (Bool-cases (has b free)) [ inl both ↦ cc (v.apart b both) | inr out ↦ out ]

      fewer : length held * 2 ^ k ≡ length (erase b held) * 2 ^ k + 2 ^ k
      fewer =
          ap (λ (n : ℕ). n * 2 ^ k) (length-erase b held there)
          ∙ mul_suc (length (erase b held)) (2 ^ k)

      still :
          (a : Address)
          → has a (erase b held) ≡ (has a held && not (a == b))
          → has a (erase b held) ≡ true
          → has a held ≡ true
      still a e h = ground (arith, e, h)

      separate : (a : Address) → has a (b ∷ free) ≡ true → (has a held && not (a == b)) ≡ false
      separate a h = elim (Bool-cases (a == b)) [
        | inl same ↦ ground (arith, same)
        | inr other ↦ ground (arith, v.apart a (ground arith))
      ]
