-- ===== src/PageResource.antt =====
-- mallockit/src/space/page_resource/freelist_page_resource.rs: `FreelistPageResource`, runs of pages from the page free list.
pub mod Laws
pub mod Tests
use malloc_kit.Base.{
  ℕ, zero, suc, ◌+◌, ◌-◌, ◌%◌, ◌^◌, max, List, [], ◌∷◌, ◌++◌, Option, none, some, if◌then◌else◌,
  leb, length, get_or, set, replicate, wrapping_add, wrapping_sub, ◌<<<◌, ◌>>>◌, next_power_of_two,
}
use malloc_kit.Address.{Address}
use malloc_kit.Intrusive.{AddressRange}
use malloc_kit.Page

-- The page free list: `allocate_cell` and `release_cell`.
pub record PageList : Type 1 where
  pub State : Type 0
  pub allocate_cell : State → ℕ → Option AddressRange × State
  pub release_cell : State → Address → ℕ → State

-- `Vec::resize_with` to a length that is not smaller.
unfoldable pub resize : List ℕ → ℕ → List ℕ
resize meta n = meta ++ replicate (n - length meta) 0

-- `meta[index] = units`, where the vector grows first when the index is not in it.
unfoldable pub set_at : List ℕ → (index units : ℕ) → List ℕ
set_at meta index units =
    if leb (length meta) index
    then set (resize meta (next_power_of_two (max (length meta) index) <<< 1)) index units
    else set meta index units

module _ (list : PageList) where
  pub record Resource : Type 0 where
    pub freelist : list.State
    pub reserved_bytes : ℕ
    pub meta : List ℕ
    pub base : Address

  module _ (log_bytes : ℕ) where
    unfoldable pub index_of : Resource → Address → ℕ
    index_of r start = wrapping_sub start r.base >>> 12

    -- The rest of `acquire_pages`, for what the free list returned.
    unfoldable pub acquired :
        Resource → ℕ → Option AddressRange × list.State → Option AddressRange × Resource
    acquired r pages (none, freelist) = (
      none,
      record {
        freelist = freelist;
        reserved_bytes = r.reserved_bytes;
        meta = r.meta;
        base = r.base;
      },
    )
    acquired r pages (some range, freelist) = (
      some (record { start = range.start; end = Page.forward log_bytes range.start pages }),
      record {
        freelist = freelist;
        reserved_bytes = wrapping_add r.reserved_bytes (pages <<< log_bytes);
        -- the counts are `u32`
        meta = set_at r.meta (index_of r range.start) ((pages <<< (log_bytes - 12)) % 2 ^ 32);
        base = r.base;
      },
    )

    unfoldable pub acquire_run : Resource → ℕ → Option AddressRange × Resource
    acquire_run r pages =
        acquired r pages (list.allocate_cell r.freelist (pages <<< (log_bytes - 12)))

    unfoldable pub acquire_pages : Resource → ℕ → Option AddressRange × Resource
    acquire_pages r requested = acquire_run r (next_power_of_two requested)

    unfoldable pub get_contiguous_pages : Resource → Address → ℕ
    get_contiguous_pages r start = get_or r.meta (index_of r start) 0 >>> (log_bytes - 12)

    unfoldable pub release_pages : Resource → Address → Resource
    release_pages r start =
        let pages = get_or r.meta (index_of r start) 0 >>> (log_bytes - 12) in
        record {
          freelist = list.release_cell r.freelist start pages;
          reserved_bytes = wrapping_sub r.reserved_bytes (pages <<< log_bytes);
          meta = r.meta;
          base = r.base;
        }
