-- ===== src/Tlab/Tests.antt =====
-- One cell in an empty buffer of four classes.
use malloc_kit.Base.{ℕ, ◌≡◌, List, [], ◌∷◌, arith, refl, ne→==, replicate, get_or-replicate}
use malloc_kit.Address.{Address}
use malloc_kit.Chain.{Memory, store}
use malloc_kit.Chain.Bins.{at_class, Absent}
use malloc_kit.SizeClass.{SizeClass}
use malloc_kit.Tlab.{DiscreteTlab, push, pop, clear_bin}
use malloc_kit.Tlab.Laws.{IsTlab, total, push-IsTlab, Popped, pop_lem, OwnCell, each, clear_bin_lem}

abbrev class_bytes : SizeClass → ℕ
class_bytes c = 16

abbrev zeros : Memory
zeros = λ (a : Address). 0

abbrev empty_lists : ℕ → List Address
empty_lists = λ (i : ℕ). []

abbrev buffer : DiscreteTlab
buffer = record { bins = replicate 4 0; bytes = 0 }

buffer-IsTlab : IsTlab class_bytes buffer zeros empty_lists
unfolding total
buffer-IsTlab = record {
  is_bins = record {
    chains = λ (i : ℕ) h. get_or-replicate 4 i 0;
    distinct = λ (i : ℕ). tt;
    apart = λ (i j : ℕ) (a : Address) ne h. refl;
  };
  counted = refl;
  fits = omega arith;
}

push_example :
    let (t', m') = push class_bytes (buffer, zeros) 1 4096 in
    IsTlab class_bytes t' m' (at_class empty_lists 1 (4096 ∷ []))
unfolding Absent
push_example =
    push-IsTlab class_bytes buffer zeros empty_lists 1 4096 buffer-IsTlab (omega arith)
      (omega arith) (λ (i : ℕ). refl) (omega arith)

abbrev one_cell : DiscreteTlab
one_cell = record { bins = 0 ∷ 4096 ∷ 0 ∷ 0 ∷ []; bytes = 16 }

one_cell-IsTlab :
    IsTlab class_bytes one_cell (store zeros 4096 0) (at_class empty_lists 1 (4096 ∷ []))
unfolding push Absent
one_cell-IsTlab =
    push-IsTlab class_bytes buffer zeros empty_lists 1 4096 buffer-IsTlab (omega arith)
      (omega arith) (λ (i : ℕ). refl) (omega arith)

pop_example :
    Popped class_bytes one_cell
      (at_class empty_lists 1 (4096 ∷ []))
      1
      (pop class_bytes (one_cell, store zeros 4096 0) 1)
pop_example =
    pop_lem class_bytes one_cell (store zeros 4096 0) (at_class empty_lists 1 (4096 ∷ [])) 1
      one_cell-IsTlab (omega arith)

-- A callback that clears the cell, over two cells.
abbrev clear_cell : Memory → Address → Memory
clear_cell m a = store m a 0

clear_cell-OwnCell : OwnCell {S = Memory} (λ (m : Memory). m) clear_cell
unfolding OwnCell
clear_cell-OwnCell m a b ne = rw (ne→== b a ne) refl

abbrev two_cells : Memory
two_cells = store zeros 4096 8192

clear_bin_example :
    clear_bin (λ (m : Memory). m) clear_cell 3 two_cells 4096
    ≡ each clear_cell two_cells (4096 ∷ 8192 ∷ [])
clear_bin_example =
    clear_bin_lem (λ (m : Memory). m) clear_cell clear_cell-OwnCell 3 two_cells 4096
      (4096 ∷ 8192 ∷ []) (omega arith) (refl, omega arith, (refl, omega arith, refl))
      (refl, (refl, tt))
