-- ===== src/BlockPages/Invariant.antt =====
-- The invariant of the blocks: every block of the space below the cursor is either on the stack or held, and none is both.
use malloc_kit.Base.{
  ℕ, suc, ◌+◌, ◌-◌, ◌*◌, ◌%◌, ◌^◌, ◌≤◌, ◌<◌, ◌≡◌, ◌≢◌, refl, arith, true, false, Option, none, some,
  List, [], ◌∷◌, length, pow_mono, wrapping_sub,
}
use malloc_kit.Address.{Address}
use malloc_kit.Address.Align.{aligned_weaken}
use malloc_kit.SpaceId.{SpaceId, Heap, get_space_range}
use malloc_kit.SpaceId.Laws.{IsHeap, get_space_range_partition}
use malloc_kit.Chain.{Memory, Chain, has, Distinct}
use malloc_kit.BlockPages.{BlockPageResource, new, link}

pub mul_suc : (n m : ℕ) → suc n * m ≡ n * m + m
mul_suc n m = omega arith

mul_mono : (n m d : ℕ) → n ≤ m → n * d ≤ m * d
mul_mono n m d h = grind (arith, h)

pub wraps :
    (size shifted n m : ℕ) → shifted ≡ size → n ≡ m + size → n < 2 ^ 64 → wrapping_sub n shifted ≡ m
wraps size shifted n m e h fits = rw e (omega (arith, h, fits))

module _ (k : ℕ) (start : Address) where
  -- A block of the space below the cursor.
  pub record IsBlock (cursor a : Address) : Type 0 where
    pub low : start ≤ a
    pub high : a + 2 ^ k ≤ cursor
    pub aligned : (a - start) % 2 ^ k ≡ 0

  -- The blocks on the stack and the blocks that are held.
  pub record IsBlocks (r : BlockPageResource) (m : Memory) (free held : List Address) : Type 0 where
    pub chain : Chain m (link r.head) free
    pub not_null : r.head ≢ some 0
    pub free_distinct : Distinct free
    pub held_distinct : Distinct held
    pub apart : (a : Address) → has a free ≡ true → has a held ≡ false
    pub free_in : (a : Address) → has a free ≡ true → IsBlock r.cursor a
    pub held_in : (a : Address) → has a held ≡ true → IsBlock r.cursor a
    pub positive : 0 < start
    pub below : start ≤ r.cursor
    pub above : r.cursor ≤ r.highwater
    pub whole : (r.cursor - start) % 2 ^ k ≡ 0
    pub extent : (r.highwater - start) % 2 ^ k ≡ 0
    pub fits : r.highwater + 2 ^ k < 2 ^ 64
    pub total : length free * 2 ^ k + length held * 2 ^ k ≡ r.cursor - start
    pub counted : r.reserved_bytes ≡ length held * 2 ^ k

  -- What `acquire_block` may return: a block that was not held, or none when all are.
  unfoldable pub Granted :
      BlockPageResource
      → Memory
      → (free held : List Address) → Option Address
      → BlockPageResource
      → Memory
      → Type 0
  Granted r m free held none r' m' = (r' ≡ r) × (m' ≡ m) × (free ≡ []) × (r.cursor ≡ r.highwater)
  Granted r m free held (some b) r' m' =
      (has b held ≡ false) × ((free' : List Address) × IsBlocks r' m' free' (b ∷ held))

  -- A new resource of a space of the heap has no block on its stack, and none is held.
  new-IsBlocks :
      (heap : Heap) (id : SpaceId) (m : Memory)
      → IsHeap heap
      → 0 < heap.start
      → id < 16
      → k ≤ 41
      → (get_space_range heap id).0 ≡ start
      → IsBlocks (new heap id) m [] []
  unfolding new link
  new-IsBlocks heap id m is_heap positive few small e =
      let range = get_space_range_partition heap id is_heap few in
      record {
        chain = refl;
        not_null = λ h. cc;
        free_distinct = tt;
        held_distinct = tt;
        apart = λ a h. refl;
        free_in = λ a h. cc;
        held_in = λ a h. cc;
        positive = omega (arith, e, range.0, positive);
        below = omega (arith, e);
        above = omega (arith, range.1);
        whole = aligned_weaken 41 k ((get_space_range heap id).0 - start) small (omega (arith, e));
        extent =
            aligned_weaken 41 k ((get_space_range heap id).1 - start) small
              (omega (arith, e, range.1));
        fits =
            omega
              (arith, range.2, is_heap.extent, is_heap.bound, is_heap.aligned, pow_mono k 41 small);
        total = omega (arith, e);
        counted = omega arith;
      }
