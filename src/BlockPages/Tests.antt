-- ===== src/BlockPages/Tests.antt =====
-- A space of two blocks of 4 KB, of which the first is held; and a stack of two blocks between two threads.
use malloc_kit.Base.{
  ℕ, ◌≡◌, refl, arith, true, ◌==◌, Bool-cases, ==→eq, inl, inr, none, some, List, [], ◌∷◌, subst,
  sym, if◌then◌else◌,
}
use malloc_kit.Address.{Address}
use malloc_kit.Chain.{Memory, has}
use malloc_kit.Linked.{erase}
use malloc_kit.BlockPages.{BlockPageResource, link, get_next, acquire_block, release_block}
use malloc_kit.BlockPages.Invariant.{IsBlock, IsBlocks, Granted}
use malloc_kit.BlockPages.Acquire.{acquire_block-IsBlocks}
use malloc_kit.BlockPages.Release.{release_block-IsBlocks}
use malloc_kit.BlockPages.Threads.{Pc, System, Steps}
use malloc_kit.BlockPages.Aba.{aba_lem}
use malloc_kit.BlockPages.Progress.{Finishes, alone-Finishes}

abbrev zeros : Memory
zeros a = 0

abbrev one_held : BlockPageResource
one_held = record { id = 4; cursor = 8192; highwater = 12288; head = none; reserved_bytes = 4096 }

abbrev held : List Address
held = 4096 ∷ []

only-IsBlock : (a : Address) → has a held ≡ true → IsBlock 12 4096 8192 a
only-IsBlock a h = elim (Bool-cases (a == 4096)) [
  | inl same ↦
      subst (IsBlock 12 4096 8192) (sym (==→eq a 4096 same))
        (record { low = omega arith; high = omega arith; aligned = refl })
  | inr other ↦ ground (arith, h, other)
]

one_held-IsBlocks : IsBlocks 12 4096 one_held zeros [] held
unfolding link
one_held-IsBlocks = record {
  chain = refl;
  not_null = λ e. cc;
  free_distinct = tt;
  held_distinct = (refl, tt);
  apart = λ a h. cc;
  free_in = λ a h. cc;
  held_in = only-IsBlock;
  positive = omega arith;
  below = omega arith;
  above = omega arith;
  whole = refl;
  extent = refl;
  fits = omega arith;
  total = refl;
  counted = refl;
}

acquire_block_example :
    let out = acquire_block 12 one_held zeros in
    Granted 12 4096 one_held zeros [] held out.block out.resource out.memory
acquire_block_example =
    acquire_block-IsBlocks 12 4096 one_held zeros [] held (omega arith) one_held-IsBlocks

release_block_example :
    let (r', m') = release_block 12 one_held zeros 4096 in
    IsBlocks 12 4096 r' m' (4096 ∷ []) (erase 4096 held)
release_block_example =
    release_block-IsBlocks 12 4096 one_held zeros [] held 4096 (omega arith) one_held-IsBlocks refl

-- Blocks 4096 and 8192 are on the stack, and no thread has a call under way.
abbrev two_free : System 12
two_free = record {
  shared = record {
    resource = record {
      id = 4;
      cursor = 12288;
      highwater = 12288;
      head = some 4096;
      reserved_bytes = 0;
    };
    memory = λ (a : Address). if a == 4096 then 8192 else 0;
  };
  pc = λ (i : ℕ). Pc.idle;
  held = λ (i : ℕ). [];
}

aba_example :
    (s' : System 12) × Steps 12 two_free s'
    × (has 8192 (s'.held 0) ≡ true)
    × (has 8192 (s'.held 1) ≡ true)
unfolding get_next
aba_example = aba_lem 12 two_free 4096 8192 refl refl (λ e. absurd (omega (arith, e))) refl refl

alone-Finishes_example :
    Finishes 12 3 (record two_free { pc = λ (i : ℕ). Pc.linked 16384 (some 8192) })
alone-Finishes_example =
    alone-Finishes 12 3 (record two_free { pc = λ (i : ℕ). Pc.linked 16384 (some 8192) })
