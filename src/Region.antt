-- ===== src/Region.antt =====
-- `MemRegion` of mallockit/src/space/page_resource/block_page_resource.rs: a block of `2^log_bytes` bytes at a
-- multiple of its size, with its metadata at its start.
pub mod Laws
use malloc_kit.Base.{ℕ, ◌+◌, ◌-◌, ◌^◌, Bool, next_power_of_two, wrapping_add, wrapping_sub, ◌<<<◌}
use malloc_kit.Address.{Address, align_down, is_aligned_to}

-- `log_bytes` is `LOG_BYTES`, and `meta_size` is `size_of::<Meta>()`.
module _ (log_bytes meta_size : ℕ) where
  unfoldable pub bytes : ℕ
  bytes = 1 <<< log_bytes

  unfoldable pub meta_bytes : ℕ
  meta_bytes = next_power_of_two meta_size

  unfoldable pub data_bytes : ℕ
  unfolding bytes meta_bytes
  data_bytes = wrapping_sub bytes meta_bytes

  unfoldable pub data_start : Address → Address
  unfolding meta_bytes
  data_start block = wrapping_add block meta_bytes

  unfoldable pub end : Address → Address
  unfolding bytes
  end block = wrapping_add block bytes

  unfoldable pub is_aligned : Address → Bool
  unfolding bytes
  is_aligned a = is_aligned_to a bytes

  unfoldable pub align : Address → Address
  unfolding bytes
  align a = align_down a bytes

  unfoldable pub containing : Address → Address
  unfolding align
  containing a = align a
