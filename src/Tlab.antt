-- ===== src/Tlab.antt =====
-- mallockit/src/util/mem/alloc/discrete_tlab.rs: `DiscreteTLAB`, free cells of a thread by size class.
pub mod Laws
pub mod Tests
use malloc_kit.Base.{
  ℕ, zero, suc, ◌+◌, List, [], ◌∷◌, Option, none, some, Bool, ◌==◌, if◌then◌else◌, get_or, set,
  replicate, length, wrapping_add, wrapping_sub,
}
use malloc_kit.Address.{Address, is_zero, zero_address}
use malloc_kit.Chain.{Memory, store}
use malloc_kit.SizeClass.{SizeClass}

-- `bytes` is the size of all the cells.
pub record DiscreteTlab : Type 0 where
  pub bins : List Address
  pub bytes : ℕ

-- `new`, for `MAX_SIZE_CLASS` classes
unfoldable pub new : ℕ → DiscreteTlab
new max_size_class = record { bins = replicate max_size_class zero_address; bytes = 0 }

unfoldable pub free_bytes : DiscreteTlab → ℕ
free_bytes t = t.bytes

-- `class_bytes` is `SizeClass::bytes`.
module _ (class_bytes : SizeClass → ℕ) where
  unfoldable pub push : DiscreteTlab × Memory → SizeClass → Address → DiscreteTlab × Memory
  push (t, m) size_class cell = (
    record {
      bins = set t.bins size_class cell;
      bytes = wrapping_add t.bytes (class_bytes size_class);
    },
    store m cell (get_or t.bins size_class 0),
  )

  unfoldable pub pop : DiscreteTlab × Memory → SizeClass → Option Address × (DiscreteTlab × Memory)
  pop (t, m) size_class =
      let cell = get_or t.bins size_class 0 in
      if is_zero cell then (none, (t, m)) else (
        some cell,
        (
          record {
            bins = set t.bins size_class (m cell);
            bytes = wrapping_sub t.bytes (class_bytes size_class);
          },
          m,
        ),
      )

-- `clear`, for a callback `f` on states `S`; `memory` reads the words of one.
module _ {S : Type 0} (memory : S → Memory) (f : S → Address → S) where
  -- The inner loop, with fuel for the cells of a bin. The link is read before `f` runs.
  unfoldable pub clear_bin : ℕ → S → Address → S
  clear_bin zero s cell = s
  clear_bin (suc fuel) s cell =
      let next = memory s cell in
      let rest = clear_bin fuel (f s cell) next in if is_zero cell then s else rest

  unfoldable pub clear_bins : ℕ → S → List Address → S
  clear_bins fuel s [] = s
  clear_bins fuel s (bin ∷ bins) = clear_bins fuel (clear_bin fuel s bin) bins

  unfoldable pub clear : ℕ → DiscreteTlab × S → DiscreteTlab × S
  clear fuel (t, s) = (
    record { bins = replicate (length t.bins) zero_address; bytes = 0 },
    clear_bins fuel s t.bins,
  )
