-- ===== src/SizeClass.antt =====
-- mallockit/src/util/mem/size_class.rs: `SizeClass<LOG_COVERAGE>`, a `u8`.
pub mod Laws
use malloc_kit.Base.{ℕ, ◌+◌, ◌-◌, ◌%◌, ◌^◌, ◌<<<◌, next_power_of_two, trailing_zeros}
use malloc_kit.Layout.{Layout, from_size_align, pad_to_align_unchecked}

abbrev pub SizeClass : Type 0
SizeClass = ℕ

module _ (log_coverage : ℕ) where
  unfoldable pub log_bytes : SizeClass → ℕ
  log_bytes c = c + log_coverage

  unfoldable pub bytes : SizeClass → ℕ
  unfolding log_bytes
  bytes c = 1 <<< log_bytes c

  -- `Layout::from_size_align(size, size).unwrap()`
  unfoldable pub layout : SizeClass → Layout
  layout c = let size = 1 <<< ((c + log_coverage) % 256) in from_size_align size size

  -- The subtraction is one of `u8`s, which wraps.
  unfoldable pub from_bytes : ℕ → SizeClass
  from_bytes n = (trailing_zeros n % 256 + 256 - log_coverage) % 256

  unfoldable pub from_layout : Layout → SizeClass
  unfolding from_bytes
  from_layout l = from_bytes (next_power_of_two (pad_to_align_unchecked l).size)
