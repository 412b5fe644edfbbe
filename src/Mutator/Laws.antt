-- ===== src/Mutator/Laws.antt =====
-- What moving a block keeps.
use malloc_kit.Base.{
  ℕ, ◌+◌, ◌-◌, ◌%◌, ◌^◌, subst, ◌≤◌, ◌<◌, ◌≡◌, ◌≢◌, min, Bool, true, false, ◌&&◌, Option, none,
  some, if◌then◌else◌, leb, ltb, arith, refl, sym, ◌∙◌, ap, ◌⊎◌,
}
use malloc_kit.Address.{Address}
use malloc_kit.Layout.{Layout}
use malloc_kit.Layout.Laws.{IsLayout}
use malloc_kit.Powers.{exponent_le}
use malloc_kit.Address.Align.{aligned_weaken}
use malloc_kit.Mutator.{Bytes, write_bytes, copy_nonoverlapping, MutatorOps, move_to, realloc}

-- The bytes of a block are those of another one.
unfoldable pub SameBytes : Bytes → Address → Bytes → Address → ℕ → Type 0
SameBytes m p m' p' size = (i : ℕ) → i < size → m' (p' + i) ≡ m (p + i)

-- Blocks without an address in common.
unfoldable pub Apart : Address → ℕ → Address → ℕ → Type 0
Apart p size q size' = (p + size ≤ q) ⊎ (q + size' ≤ p)

-- What a plan promises of its states that are reached, its live blocks with the layouts that `get_layout` finds, and
-- the layouts that it serves.
pub record IsAllocator (ops : MutatorOps) : Type 1 where
  pub Valid : MutatorOps.State ops → Type 0
  pub Live : MutatorOps.State ops → Address → Layout → Type 0
  pub Serves : Layout → Type 0
  pub serves_layout : (l : Layout) → Serves l → IsLayout l
  pub get_layout_law :
      (s : MutatorOps.State ops) (p : Address) (l : Layout)
      → Valid s
      → Live s p l
      → MutatorOps.get_layout ops s p ≡ l
  pub aligned_law :
      (s : MutatorOps.State ops) (p : Address) (l : Layout)
      → Valid s
      → Live s p l
      → (k : ℕ) × (l.align ≡ 2 ^ k) × (p % 2 ^ k ≡ 0)
  -- An allocation keeps the live blocks, whether or not it succeeds.
  pub alloc_keeps :
      (s s' : MutatorOps.State ops) (l : Layout) (r : Option Address)
      → Valid s
      → Serves l
      → MutatorOps.alloc ops s l ≡ (r, s')
      → Valid s'
        × ((q : Address) (k : Layout)
            → Live s q k
            → Live s' q k
              × SameBytes (MutatorOps.memory ops s) q (MutatorOps.memory ops s') q k.size)
  -- The block that it returns may be larger than what was asked for.
  pub alloc_law :
      (s s' : MutatorOps.State ops) (l : Layout) (p : Address)
      → Valid s
      → Serves l
      → MutatorOps.alloc ops s l ≡ (some p, s')
      → (k : Layout) × Live s' p k × (l.size ≤ k.size) × (p % l.align ≡ 0)
  -- It shares nothing with the blocks that were live before.
  pub alloc_apart :
      (s s' : MutatorOps.State ops) (l j k : Layout) (p q : Address)
      → Valid s
      → Serves l
      → MutatorOps.alloc ops s l ≡ (some p, s')
      → Live s q j
      → Live s' p k
      → (q ≢ p) × Apart q j.size p k.size
  pub dealloc_keeps :
      (s : MutatorOps.State ops) (p : Address) (l : Layout)
      → Valid s
      → Live s p l
      → let s' = MutatorOps.dealloc ops s p in
        Valid s'
        × ((q : Address) (k : Layout)
            → Live s q k
            → q ≢ p
            → Live s' q k
              × SameBytes (MutatorOps.memory ops s) q (MutatorOps.memory ops s') q k.size)
  pub set_memory_law :
      (s : MutatorOps.State ops) (m : Bytes) (a : Address)
      → MutatorOps.memory ops (MutatorOps.set_memory ops s m) a ≡ m a
  -- Writing inside a live block keeps the blocks.
  pub set_memory_keeps :
      (s : MutatorOps.State ops) (m : Bytes) (p : Address) (l : Layout)
      → Valid s
      → Live s p l
      → ((a : Address) → (a < p) ⊎ (p + l.size ≤ a) → m a ≡ MutatorOps.memory ops s a)
      → Valid (MutatorOps.set_memory ops s m)
        × ((q : Address) (k : Layout) → Live s q k → Live (MutatorOps.set_memory ops s m) q k)

copy_at :
    (m : Bytes) (src dst count i : ℕ)
    → i < count
    → copy_nonoverlapping m src dst count (dst + i) ≡ m (src + i)
copy_at m src dst count i h =
    ap (λ (b : Bool). if b then m (src + (dst + i - dst)) else m (dst + i)) (within dst count i h)
    ∙ ap (λ (j : ℕ). m (src + j)) (back dst i)
  where
    within :
        (dst count i : ℕ) → i < count → (leb dst (dst + i) && ltb (dst + i) (dst + count)) ≡ true
    within dst count i h = ground (arith, h)

    back : (dst i : ℕ) → dst + i - dst ≡ i
    back dst i = omega arith

copy_elsewhere :
    (m : Bytes) (src dst count size a : ℕ)
    → count ≤ size
    → (a < dst) ⊎ (dst + size ≤ a)
    → copy_nonoverlapping m src dst count a ≡ m a
copy_elsewhere m src dst count size a le h =
    ap (λ (b : Bool). if b then m (src + (a - dst)) else m a) (outside dst count size a le h)
  where
    outside :
        (dst count size a : ℕ)
        → count ≤ size
        → (a < dst) ⊎ (dst + size ≤ a)
        → (leb dst a && ltb a (dst + count)) ≡ false
    outside dst count size a le h = ground (arith, le, h)

pub zero_at : (m : Bytes) (dst size i : ℕ) → i < size → write_bytes m dst 0 size (dst + i) ≡ 0
zero_at m dst size i h = ap (λ (b : Bool). if b then 0 else m (dst + i)) (within dst size i h)
  where
    within : (dst size i : ℕ) → i < size → (leb dst (dst + i) && ltb (dst + i) (dst + size)) ≡ true
    within dst size i h = ground (arith, h)

module _ (ops : MutatorOps) (law : IsAllocator ops) where
  open ops use {State, alloc, dealloc, get_layout, memory, set_memory}
  open law use {Live}

  -- The other live blocks are live and unchanged.
  unfoldable pub OthersKept : State → Address → State → Type 0
  OthersKept s ptr s' =
      (q : Address) (k : Layout)
      → Live s q k
      → q ≢ ptr
      → Live s' q k × SameBytes (memory s) q (memory s') q k.size

  -- What `realloc` returns.
  unfoldable pub Reallocated :
      State → Address → (layout new_layout : Layout) → Option Address × State → Type 0
  Reallocated s ptr layout new_layout (none, s') =
      law.Valid s'
      × Live s' ptr layout
      × SameBytes (memory s) ptr (memory s') ptr layout.size
      × OthersKept s ptr s'
  Reallocated s ptr layout new_layout (some p, s') =
      law.Valid s'
      × ((block : Layout) × Live s' p block
          × (new_layout.size ≤ block.size)
          × (p % new_layout.align ≡ 0))
      × SameBytes (memory s) ptr (memory s') p (min layout.size new_layout.size)
      × OthersKept s ptr s'

  move_lem :
      (s : State) (ptr : Address) (layout new_layout : Layout) (r : Option Address × State)
      → law.Valid s
      → law.Serves new_layout
      → Live s ptr layout
      → alloc s new_layout ≡ r
      → Reallocated s ptr layout new_layout (move_to ops ptr layout new_layout r)
  unfolding move_to Reallocated SameBytes OthersKept Apart
  move_lem s ptr layout new_layout (none, s') ok serves live eq =
      let (valid, kept) = law.alloc_keeps s s' new_layout none ok serves eq in
      let (old, same) = kept ptr layout live in (valid, old, same, λ q k there ne. kept q k there)
  move_lem s ptr layout new_layout (some p, s') ok serves live eq =
      let count : ℕ = min layout.size new_layout.size in
      let copied : Bytes = copy_nonoverlapping (memory s') ptr p count in
      let (valid, kept) = law.alloc_keeps s s' new_layout (some p) ok serves eq in
      let (old, same) = kept ptr layout live in
      let (block, granted, holds, aligned) = law.alloc_law s s' new_layout p ok serves eq in
      let apart : (q : Address) (k : Layout)
          → Live s q k
          → (q ≢ p) × ((q + k.size ≤ p) ⊎ (p + block.size ≤ q)) =
        λ q k there. law.alloc_apart s s' new_layout k block p q ok serves eq there granted in
      let untouched : (a : Address) → (a < p) ⊎ (p + block.size ≤ a) → copied a ≡ memory s' a =
        λ a out. copy_elsewhere (memory s') ptr p count block.size a (omega (arith, holds)) out in
      let t : State = set_memory s' copied in
      let (valid', written) = law.set_memory_keeps s' copied p block valid granted untouched in
      let (valid'', freed) = law.dealloc_keeps t ptr layout valid' (written ptr layout old) in
      let (new_live, bytes) =
        freed p block (written p block granted) (λ e. (apart ptr layout live).0 (sym e)) in
      (
        valid'',
        (block, new_live, holds, aligned),
        λ (i : ℕ) (h : i < count).
            bytes i (omega (arith, h, holds))
            ∙ law.set_memory_law s' copied (p + i)
            ∙ copy_at (memory s') ptr p count i h
            ∙ same i (omega (arith, h)),
        λ q k there ne.
            let (still, same') = freed q k (written q k (kept q k there).0) ne in
            (
              still,
              λ (i : ℕ) (h : i < k.size).
                  same' i h
                  ∙ law.set_memory_law s' copied (q + i)
                  ∙ untouched (q + i) (outside q k.size p block.size i h ((apart q k there).1))
                  ∙ (kept q k there).1 i h,
            ),
      )
    where
      outside : (q n p m i : ℕ) → i < n → (q + n ≤ p) ⊎ (p + m ≤ q) → (q + i < p) ⊎ (p + m ≤ q + i)
      outside q n p m i h apart = omega (arith, h, apart)

  -- A block aligned to a power of two is aligned to a smaller one.
  aligned_below :
      (p n : ℕ) (l : Layout) (v : IsLayout l)
      → ((k : ℕ) × (n ≡ 2 ^ k) × (p % 2 ^ k ≡ 0))
      → l.align ≤ n
      → p % l.align ≡ 0
  aligned_below p n l v (k, is_pow, aligned) le =
      subst (λ (a : ℕ). p % a ≡ 0) (sym v.is_pow)
        (aligned_weaken k v.log_align p
          (exponent_le v.log_align k l.align (omega (arith, v.is_pow)) (omega (arith, is_pow, le)))
          aligned)

  -- `realloc` of a live block to a layout that the plan serves returns a live block that is large enough and aligned as
  -- asked, and begins with the bytes of the old one, up to the smaller of the two sizes; when the allocation fails, the
  -- old block is live and unchanged. Every other live block stays live and unchanged. The state is one that is reached.
  pub realloc_lem :
      (s : State) (ptr : Address) (layout new_layout : Layout)
      → law.Valid s
      → law.Serves new_layout
      → Live s ptr layout
      → Reallocated s ptr layout new_layout (realloc ops s ptr new_layout)
  unfolding realloc Reallocated SameBytes OthersKept
  realloc_lem s ptr layout new_layout ok serves live =
      rw (law.get_layout_law s ptr layout ok live)
        (choose (leb new_layout.size layout.size && leb new_layout.align layout.align) (λ h. h))
    where
      choose :
          (b : Bool)
          → (b ≡ true
              → (leb new_layout.size layout.size && leb new_layout.align layout.align) ≡ true)
          → Reallocated s ptr layout new_layout
              (if b then (some ptr, s) else move_to ops ptr layout new_layout (alloc s new_layout))
      choose true holds = (
        ok,
        (
          layout,
          live,
          ground (arith, holds refl),
          aligned_below ptr layout.align new_layout (law.serves_layout new_layout serves)
              (law.aligned_law s ptr layout ok live) (ground (arith, holds refl)),
        ),
        λ (i : ℕ) (h : i < min layout.size new_layout.size). refl,
        λ q k there ne. (there, λ (i : ℕ) (h : i < k.size). refl),
      )
      choose false holds = move_lem s ptr layout new_layout (alloc s new_layout) ok serves live refl
