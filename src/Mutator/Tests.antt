-- ===== src/Mutator/Tests.antt =====
-- A mutator that never reuses memory, and moving a block in it.
use malloc_kit.Base.{
  ℕ, ◌+◌, ◌*◌, ◌/◌, ◌%◌, ◌^◌, ◌≤◌, Bool, ap, sym, ◌∙◌, ◌<◌, ◌≡◌, ◌≢◌, true, Option, none, some,
  if◌then◌else◌, ltb, ◌==◌, arith, refl, subst, inl, inr, Bool-cases, ne→==,
}
use malloc_kit.Address.{Address}
use malloc_kit.Layout.{Layout, from_size_align}
use malloc_kit.Mutator.{Bytes, MutatorOps, realloc}
use malloc_kit.Mutator.Laws.{SameBytes, Apart, IsAllocator, Reallocated, realloc_lem}

pub record Blocks : Type 0 where
  pub top : Address
  pub blocks : Address → Option Layout
  pub contents : Bytes

-- The size is rounded up to more than the request, in units of 16 bytes.
abbrev pub rounded : Layout → Layout
rounded l = from_size_align (l.size / 16 * 16 + 16) 16

unfoldable pub grant : Blocks → Layout → Option Address × Blocks
grant s l = if ltb 4096 l.size then (none, s) else (
  some s.top,
  record {
    top = s.top + (rounded l).size + 16;
    blocks = λ (q : Address). if q == s.top then some (rounded l) else s.blocks q;
    contents = s.contents;
  },
)

unfoldable pub forget : Blocks → Address → Blocks
forget s p = record {
  top = s.top;
  blocks = λ (q : Address). if q == p then none else s.blocks q;
  contents = s.contents;
}

unfoldable pub or_empty : Option Layout → Layout
or_empty none = from_size_align 0 0
or_empty (some l) = l

abbrev pub blocks_ops : MutatorOps
blocks_ops = record {
  State = Blocks;
  alloc = grant;
  dealloc = forget;
  get_layout = λ (s : Blocks) (p : Address). or_empty (s.blocks p);
  memory = λ (s : Blocks). s.contents;
  set_memory = λ (s : Blocks) (m : Bytes). record { top = s.top; blocks = s.blocks; contents = m };
}

abbrev pub LiveBlock : Blocks → Address → Layout → Type 0
LiveBlock s p l = (s.blocks p ≡ some l) × (p + l.size < s.top) × (l.align ≡ 2 ^ 4) × (p % 2 ^ 4 ≡ 0)

abbrev pub WholeTop : Blocks → Type 0
WholeTop s = s.top % 2 ^ 4 ≡ 0

abbrev pub Served : Layout → Type 0
Served l = (l.align ≡ 2 ^ 4) × (l.size + 16 ≤ 2 ^ 63)

unfoldable pub Kept : Blocks → Option Address × Blocks → Type 0
Kept s r =
    WholeTop (r.1)
    × ((q : Address) (k : Layout)
        → LiveBlock s q k
        → LiveBlock (r.1) q k × SameBytes s.contents q (r.1).contents q k.size)

-- A new block is live, and apart from the one at `q`.
unfoldable pub Fresh : Layout → Option Address × Blocks → Type 0
Fresh l (none, s) = Unit
Fresh l (some p, s) = (k : Layout) × LiveBlock s p k × (l.size ≤ k.size) × (p % 2 ^ 4 ≡ 0)

unfoldable pub Separate : Address → Layout → Option Address × Blocks → Type 0
Separate q j (none, s) = Unit
Separate q j (some p, s) = (k : Layout) → LiveBlock s p k → (q ≢ p) × Apart q j.size p k.size

pub grant-Kept : (s : Blocks) (l : Layout) → WholeTop s → Kept s (grant s l)
unfolding grant Kept SameBytes
grant-Kept s l whole = elim (Bool-cases (ltb 4096 l.size)) [
  | inl large ↦ rw large (whole, λ q k live. (live, λ (i : ℕ) (h : i < k.size). refl))
  | inr small ↦ rw small (
    omega (arith, whole),
    λ q k live. (
      (
        ap (λ (b : Bool). if b then some (rounded l) else s.blocks q)
              (ne→== q s.top (below q k live))
            ∙ live.0,
        omega (arith, live.1),
        live.2,
        live.3,
      ),
      λ (i : ℕ) (h : i < k.size). refl,
    ),
  )
]
  where
    below : (q : Address) (k : Layout) → LiveBlock s q k → q ≢ s.top
    below q k live = omega (arith, live.1)

pub grant-Fresh : (s : Blocks) (l : Layout) → WholeTop s → Fresh l (grant s l)
unfolding grant Fresh
grant-Fresh s l whole = elim (Bool-cases (ltb 4096 l.size)) [
  | inl large ↦ rw large tt
  | inr small ↦
      rw (small, same s.top) (rounded l, (refl, omega arith, refl, whole), omega arith, whole)
]
  where
    same : (n : ℕ) → (n == n) ≡ true
    same n = ground arith

pub grant-Separate :
    (s : Blocks) (l : Layout) (q : Address) (j : Layout)
    → LiveBlock s q j
    → Separate q j (grant s l)
unfolding grant Separate Apart
grant-Separate s l q j live = elim (Bool-cases (ltb 4096 l.size)) [
  | inl large ↦ rw large tt
  | inr small ↦ rw small (λ k there. (omega (arith, live.1), inl (omega (arith, live.1))))
]

-- From an aligned top on, it serves the layouts of alignment 16.
unfoldable pub blocks_ops-IsAllocator : IsAllocator blocks_ops
unfolding forget or_empty Kept Fresh Separate SameBytes
blocks_ops-IsAllocator = record {
  Valid = WholeTop;
  Live = LiveBlock;
  Serves = Served;
  serves_layout = λ (l : Layout) serves. record {
    log_align = 4;
    is_pow = serves.0;
    bound = omega (arith, serves.0, serves.1);
  };
  get_layout_law = λ (s : Blocks) (p : Address) (l : Layout) ok live. ap or_empty live.0;
  aligned_law = λ (s : Blocks) (p : Address) (l : Layout) ok live. (4, live.2, live.3);
  alloc_keeps = λ (s s' : Blocks) (l : Layout) (r : Option Address) ok serves eq.
      subst (Kept s) eq (grant-Kept s l ok);
  alloc_law = λ (s s' : Blocks) (l : Layout) (p : Address) ok serves eq.
      let (k, live, holds, aligned) = subst (Fresh l) eq (grant-Fresh s l ok) in
      (k, live, holds, subst (λ (n : ℕ). p % n ≡ 0) (sym serves.0) aligned);
  alloc_apart = λ (s s' : Blocks) (l j k : Layout) (p q : Address) ok serves eq old new.
      subst (Separate q j) eq (grant-Separate s l q j old) k new;
  dealloc_keeps = λ (s : Blocks) (p : Address) (l : Layout) ok old. (
    ok,
    λ (q : Address) (k : Layout) live ne. (
      (
        ap (λ (b : Bool). if b then none else s.blocks q) (ne→== q p ne) ∙ live.0,
        live.1,
        live.2,
        live.3,
      ),
      λ (i : ℕ) (h : i < k.size). refl,
    ),
  );
  set_memory_law = λ (s : Blocks) (m : Bytes) (a : Address). refl;
  set_memory_keeps = λ (s : Blocks) (m : Bytes) (p : Address) (l : Layout) ok live inside.
      (ok, λ (q : Address) (k : Layout) there. there);
}

-- A block of 32 bytes at address 4096.
abbrev pub one_block : Blocks
one_block = record {
  top = 8192;
  blocks = λ (q : Address). if q == 4096 then some (from_size_align 32 16) else none;
  contents = λ (a : Address). 7;
}

realloc_example :
    Reallocated blocks_ops blocks_ops-IsAllocator one_block 4096
      (from_size_align 32 16)
      (from_size_align 64 16)
      (realloc blocks_ops one_block 4096 (from_size_align 64 16))
unfolding blocks_ops-IsAllocator
realloc_example =
    realloc_lem blocks_ops blocks_ops-IsAllocator one_block 4096 (from_size_align 32 16)
      (from_size_align 64 16) refl (refl, omega arith) (refl, omega arith, refl, refl)
