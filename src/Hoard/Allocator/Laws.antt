-- ===== src/Hoard/Allocator/Laws.antt =====
-- Small cells come from the buffer and go back to it, within its limit.
use malloc_kit.Base.{
  ℕ, ◌+◌, ◌≤◌, ◌<◌, ◌≡◌, ◌≢◌, ◌⊎◌, inl, inr, refl, arith, true, ◌&&◌, Bool-cases, leb, ltb, leb→le,
  leb→gt, lt→ltb, ltb→lt, ltb→ge, Option, none, some, List, [], ◌∷◌, length, wrapping_add, pow_mono,
}
use malloc_kit.Address.{Address}
use malloc_kit.Layout.{Layout, padded_size}
use malloc_kit.Layout.Laws.{IsLayout}
use malloc_kit.SizeClass
use malloc_kit.SizeClass.{SizeClass}
use malloc_kit.SizeClass.Laws.{from_layout-le, bytes-eq}
use malloc_kit.Chain.{Memory}
use malloc_kit.Chain.Bins.{at_class, Absent}
use malloc_kit.Tlab
use malloc_kit.Tlab.{DiscreteTlab, free_bytes}
use malloc_kit.Tlab.Laws.{IsTlab, Popped, pop_lem, push-IsTlab}
use malloc_kit.Hoard.Allocator.{
  Pool, HoardAllocator, class_bytes, alloc, alloc_local, dealloc, local_heap_threshold,
  largest_small_object,
}

-- A class of small cells has a bin.
small_class : (c : SizeClass) → c + 4 < 64 → class_bytes c ≤ largest_small_object → c < 7
small_class c fits small = elim (Bool-cases (ltb c 7)) [
  | inl low ↦ ltb→lt c 7 low
  | inr high ↦ absurd (
      omega (arith, small, bytes-eq 4 c fits, pow_mono 11 (c + 4) (omega (arith, ltb→ge c 7 high))))
]

module _ (p : Pool) where
  -- Freeing a cell either puts it into the buffer, which stays within its limit, or gives it to the pool, and then the buffer
  -- is as it was.
  unfoldable pub Freed :
      (s : HoardAllocator p) (m : Memory) (lists : ℕ → List Address)
      → Address
      → HoardAllocator p × Memory
      → Type 0
  Freed s m lists cell (s', m') =
      let c = Pool.class_of p s.local cell in
      ((s'.local ≡ s.local)
        × IsTlab class_bytes s'.tlab m' (at_class lists c (cell ∷ lists c))
        × (s'.tlab.bytes ≤ local_heap_threshold))
      ⊎ ((s'.tlab ≡ s.tlab) × ((s'.local, m') ≡ Pool.free_cell p s.local m cell))

  -- A cell that is not null and is in no bin is freed within the limit of the buffer, when its class is one of words.
  pub dealloc-Freed :
      (s : HoardAllocator p) (m : Memory) (lists : ℕ → List Address) (cell : Address)
      → IsTlab class_bytes s.tlab m lists
      → length s.tlab.bins ≡ 7
      → s.tlab.bytes ≤ local_heap_threshold
      → Pool.class_of p s.local cell + 4 < 64
      → cell ≢ 0
      → Absent cell lists
      → Freed s m lists cell (dealloc p s m cell)
  unfolding Freed dealloc free_bytes Tlab.push
  dealloc-Freed s m lists cell v seven limit fits ne absent =
      let c = Pool.class_of p s.local cell in
      elim (Bool-cases (
        leb (class_bytes c) largest_small_object
        && leb (wrapping_add (class_bytes c) s.tlab.bytes) local_heap_threshold)) [
          | inl small ↦ rw small (
              inl (
                refl,
                push-IsTlab class_bytes s.tlab m lists c cell v
                    (omega (
                      arith,
                      seven,
                      small_class c fits (
                          first (class_bytes (Pool.class_of p s.local cell))
                            (wrapping_add (class_bytes (Pool.class_of p s.local cell)) s.tlab.bytes)
                            small),
                    ))
                    ne absent
                    (omega (
                      arith,
                      first (class_bytes (Pool.class_of p s.local cell))
                          (wrapping_add (class_bytes (Pool.class_of p s.local cell)) s.tlab.bytes)
                          small,
                      limit,
                    )),
                pushed_bytes (class_bytes c)
                    (first (class_bytes (Pool.class_of p s.local cell))
                      (wrapping_add (class_bytes (Pool.class_of p s.local cell)) s.tlab.bytes)
                      small)
                    (second (class_bytes (Pool.class_of p s.local cell))
                      (wrapping_add (class_bytes (Pool.class_of p s.local cell)) s.tlab.bytes)
                      small),
              ))
          | inr large ↦ rw large (inr (refl, refl))
        ]
    where
      first :
          (n k : ℕ)
          → (leb n largest_small_object && leb k local_heap_threshold) ≡ true
          → n ≤ largest_small_object
      first n k h = ground (arith, h)

      second :
          (n k : ℕ)
          → (leb n largest_small_object && leb k local_heap_threshold) ≡ true
          → k ≤ local_heap_threshold
      second n k h = ground (arith, h)

      pushed_bytes :
          (n : ℕ)
          → n ≤ largest_small_object
          → wrapping_add n s.tlab.bytes ≤ local_heap_threshold
          → wrapping_add s.tlab.bytes n ≤ local_heap_threshold
      pushed_bytes n small within = omega (arith, small, within, limit)

  -- The result of an allocation of `size` bytes, of class `c`: the head of the class's bin, or what the pool returned, with the buffer kept.
  unfoldable pub Allocated :
      (s : HoardAllocator p) (m : Memory) (lists : ℕ → List Address)
      → SizeClass
      → (size : ℕ) → Option (Option Address × (HoardAllocator p × Memory))
      → Type 0
  Allocated s m lists c size none = ⊥
  Allocated s m lists c size (some (cell, (s', m'))) =
      ((size ≤ largest_small_object)
        × (head : Address) × (rest : List Address) × (cell ≡ some head)
        × (lists c ≡ head ∷ rest)
        × (s'.local ≡ s.local)
        × IsTlab class_bytes s'.tlab m' (at_class lists c rest))
      ⊎ (((largest_small_object < size) ⊎ (lists c ≡ []))
          × (s'.tlab ≡ s.tlab)
          × ((cell, (s'.local, m')) ≡ Pool.alloc_cell p s.local m c))

  -- A padded layout of at least 16 bytes is allocated without a panic: by the head of the bin of its class, when it is small
  -- and the bin has a cell; and when it is large or the bin is empty, the pool is asked for a cell of the class.
  pub alloc-Allocated :
      (s : HoardAllocator p) (m : Memory) (lists : ℕ → List Address) (l : Layout)
      → IsTlab class_bytes s.tlab m lists
      → length s.tlab.bins ≡ 7
      → IsLayout l
      → 16 ≤ l.size
      → padded_size l ≡ l.size
      → Allocated s m lists (SizeClass.from_layout 4 l) l.size (alloc p s m l)
  unfolding Allocated alloc alloc_local Popped
  alloc-Allocated s m lists l v seven is low padded =
      elim (Bool-cases (leb l.size largest_small_object)) [
        | inl small ↦
            let c_low : SizeClass.from_layout 4 l < 7 = omega (
              arith,
              from_layout-le 4 is 10 (omega arith) (omega arith) (omega (arith, low, padded))
                  (omega (arith, padded, leb→le l.size largest_small_object small)),
            ) in
            rw
              (
                small,
                lt→ltb (SizeClass.from_layout 4 l) (length s.tlab.bins)
                    (omega (arith, c_low, seven)),
              )
              (from_bin (leb→le l.size largest_small_object small)
                (Tlab.pop class_bytes (s.tlab, m) (SizeClass.from_layout 4 l))
                (pop_lem class_bytes s.tlab m lists (SizeClass.from_layout 4 l) v
                  (omega (arith, c_low, seven))))
        | inr large ↦ rw large (inr (inl (leb→gt l.size largest_small_object large), refl, refl))
      ]
    where
      from_bin :
          l.size ≤ largest_small_object
          → (r : Option Address × (DiscreteTlab × Memory))
          → Popped class_bytes s.tlab lists (SizeClass.from_layout 4 l) r
          → Allocated s m lists (SizeClass.from_layout 4 l) l.size (
              some (elim r.0 [
                | none ↦ alloc_local p s m (SizeClass.from_layout 4 l)
                | some cell ↦ (some cell, (record s { tlab = r.1.0 }, r.1.1))
              ]))
      from_bin small (none, (t', m')) popped = inr (inr popped.0, refl, refl)
      from_bin small (some cell, (t', m')) (rest, list, v', absent, less) =
          inl (small, cell, rest, refl, list, refl, v')
