-- ===== src/Page.antt =====
-- mallockit/src/util/mem/page.rs: `Page<S>`, an address that is a multiple of the page size, and
-- the `MemRegion` trait of space/page_resource/block_page_resource.rs.
pub mod Region
use malloc_kit.Base.{
  ℕ, ◌-◌, ◌^◌, bit_and, Bool, Option, none, some, if◌then◌else◌, ltb, ◌==◌, wrapping_add,
  wrapping_sub, bit_not, ◌<<<◌, ◌>>>◌,
}
use malloc_kit.Address.{Address}

-- `PageSize::LOG_BYTES` of `Size4K`, `Size2M` and `Size1G`; the functions below take it for `S`.
abbrev pub size_4k : ℕ
size_4k = 12

abbrev pub size_2m : ℕ
size_2m = 21

abbrev pub size_1g : ℕ
size_1g = 30

-- `Page<S>` holds its start.
abbrev pub Page : Type 0
Page = Address

module _ (log_bytes : ℕ) where
  unfoldable pub bytes : ℕ
  bytes = 1 <<< log_bytes

  unfoldable pub page_mask : ℕ
  unfolding bytes
  page_mask = wrapping_sub bytes 1

  unfoldable pub align : Address → Address
  unfolding page_mask
  align a = bit_and a (bit_not page_mask)

  unfoldable pub is_aligned : Address → Bool
  unfolding page_mask
  is_aligned a = bit_and a page_mask == 0

  unfoldable pub containing : Address → Page
  unfolding align
  containing a = align a

  unfoldable pub end : Page → Address
  unfolding bytes
  end p = wrapping_add p bytes

  unfoldable pub steps_between : Page → Page → Option ℕ
  steps_between p q = if ltb q p then none else some (wrapping_sub q p >>> log_bytes)

  unfoldable pub forward : Page → ℕ → Page
  forward p count = wrapping_add p (count <<< log_bytes)

  unfoldable pub backward : Page → ℕ → Page
  backward p count = wrapping_sub p (count <<< log_bytes)
