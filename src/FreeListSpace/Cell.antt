-- ===== src/FreeListSpace/Cell.antt =====
-- What the header of a cell records can be read back.
use malloc_kit.Base.{ℕ, ◌+◌, ◌-◌, ◌^◌, ◌≤◌, ◌<◌, ◌≡◌, arith, refl, ◌∙◌, wrapping_add, wrapping_sub}
use malloc_kit.Powers.{trailing_zeros-pow}
use malloc_kit.Masks.{shift_one}
use malloc_kit.BitField.{get, set}
use malloc_kit.BitField.Laws.{Fits, get-set, set-lt, get-set_below}
use malloc_kit.FreeListSpace.{
  start_offset_field, size_field, log_align_field, cell_set, cell_start, cell_size, cell_data_size,
  cell_align,
}

start_offset-Fits : Fits start_offset_field
start_offset-Fits = record { within = omega arith; narrow = omega arith }

size-Fits : Fits size_field
size-Fits = record { within = omega arith; narrow = omega arith }

log_align-Fits : Fits log_align_field
log_align-Fits = record { within = omega arith; narrow = omega arith }

-- Writing the three fields and reading each of them.
record Fields (word offset size log : ℕ) : Type 0 where
  offset_back : get word start_offset_field ≡ offset
  size_back : get word size_field ≡ size
  log_back : get word log_align_field ≡ log

Fields-of :
    (w offset size log : ℕ)
    → w < 2 ^ 64
    → offset < 2 ^ 21
    → size < 2 ^ 21
    → log < 2 ^ 8
    → Fields
        (set (set (set w start_offset_field offset) size_field size) log_align_field log)
        offset
        size
        log
Fields-of w offset size log hw ho hs hl =
    let w1 : ℕ = set w start_offset_field offset in
    let w2 : ℕ = set w1 size_field size in
    let f1 : w1 < 2 ^ 64 = set-lt start_offset_field start_offset-Fits w offset hw ho in
    let f2 : w2 < 2 ^ 64 = set-lt size_field size-Fits w1 size f1 hs in
    record {
      offset_back =
          get-set_below log_align_field log_align-Fits start_offset_field w2 log start_offset-Fits
            (omega arith) f2 hl
          ∙ get-set_below size_field size-Fits start_offset_field w1 size start_offset-Fits
              (omega arith) f1 hs
          ∙ get-set start_offset_field start_offset-Fits w offset hw ho;
      size_back =
          get-set_below log_align_field log_align-Fits size_field w2 log size-Fits (omega arith) f2
            hl
          ∙ get-set size_field size-Fits w1 size f1 hs;
      log_back = get-set log_align_field log_align-Fits w2 log f2 hl;
    }

-- From the header that `Cell::set` writes, the start of the cell, its size, the alignment and the size from the data on can be read, while the offset
-- of the data and the size are below 2 MB.
pub cell_lem :
    (word this start size k : ℕ)
    → word < 2 ^ 64
    → start ≤ this + 8
    → this + 8 < start + 2 ^ 21
    → this + 8 < 2 ^ 64
    → size < 2 ^ 21
    → this + 8 ≤ start + size
    → k < 64
    → let w = cell_set word this start size (2 ^ k) in
      (cell_start w this ≡ start)
      × (cell_size w ≡ size)
      × (cell_align w ≡ 2 ^ k)
      × (cell_data_size w ≡ start + size - (this + 8))
unfolding cell_set cell_start cell_size cell_align cell_data_size
cell_lem word this start size k hw low high fits hs inside hk =
    let offset : ℕ = this + 8 - start in
    let top : wrapping_add this 8 ≡ this + 8 = omega (arith, fits) in
    let apart : wrapping_sub (this + 8) start ≡ offset = omega (arith, low, fits) in
    let back : wrapping_sub (this + 8) offset ≡ start = omega (arith, low, fits) in
    let left : wrapping_sub size offset ≡ start + size - (this + 8) =
      omega (arith, low, inside, hs) in
    let fields : Fields
        (set (set (set word start_offset_field offset) size_field size) log_align_field k) offset
        size k =
      Fields-of word offset size k hw (omega (arith, high, low)) hs (omega (arith, hk)) in
    rw
      (
        top,
        apart,
        trailing_zeros-pow k hk,
        Fields.offset_back fields,
        Fields.size_back fields,
        Fields.log_back fields,
      )
      (back, refl, shift_one k hk, left)

-- What `Cell::set` writes is a word.
pub cell_set-lt :
    (word this start size k : ℕ)
    → word < 2 ^ 64
    → start ≤ this + 8
    → this + 8 < start + 2 ^ 21
    → this + 8 < 2 ^ 64
    → size < 2 ^ 21
    → k < 64
    → cell_set word this start size (2 ^ k) < 2 ^ 64
unfolding cell_set
cell_set-lt word this start size k hw low high fits hs hk =
    let offset : ℕ = this + 8 - start in
    let top : wrapping_add this 8 ≡ this + 8 = omega (arith, fits) in
    let apart : wrapping_sub (this + 8) start ≡ offset = omega (arith, low, fits) in
    let w1 : ℕ = set word start_offset_field offset in
    let f1 : w1 < 2 ^ 64 =
      set-lt start_offset_field start_offset-Fits word offset hw (omega (arith, high, low)) in
    let f2 : set w1 size_field size < 2 ^ 64 = set-lt size_field size-Fits w1 size f1 hs in
    rw (top, apart, trailing_zeros-pow k hk)
      (set-lt log_align_field log_align-Fits (set w1 size_field size) k f2 (omega (arith, hk)))
