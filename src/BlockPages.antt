-- ===== src/BlockPages.antt =====
-- mallockit/src/space/page_resource/block_page_resource.rs: `BlockPageResource`, the blocks of a space. Released blocks are on
-- a stack that is linked through their first words, and new ones are cut from the space at a cursor.
pub mod Invariant
pub mod Acquire
pub mod Release
pub mod Threads
pub mod Aba
pub mod Progress
pub mod Tests
use malloc_kit.Base.{
  ℕ, ◌+◌, ◌^◌, Bool, Option, none, some, if◌then◌else◌, leb, wrapping_add, wrapping_sub, ◌<<<◌,
  ◌>>>◌,
}
use malloc_kit.Address.{Address, zero_address, is_zero}
use malloc_kit.Page
use malloc_kit.SpaceId.{SpaceId, Heap, get_space_range}
use malloc_kit.Chain.{Memory, store}

pub record BlockPageResource : Type 0 where
  pub id : SpaceId
  pub cursor : Address
  pub highwater : Address
  pub head : Option Address
  pub reserved_bytes : ℕ

-- What `acquire_block` returns, with the state after it.
pub record Acquired : Type 0 where
  pub block : Option Address
  pub resource : BlockPageResource
  pub memory : Memory

unfoldable pub new : Heap → SpaceId → BlockPageResource
new heap id = record {
  id = id;
  cursor = (get_space_range heap id).0;
  highwater = (get_space_range heap id).1;
  head = none;
  reserved_bytes = 0;
}

-- `next.start()`, or the null address.
unfoldable pub link : Option Address → Address
link none = zero_address
link (some b) = b

unfoldable pub set_next : Memory → Address → Option Address → Memory
unfolding link
set_next m b next = store m b (link next)

unfoldable pub get_next : Memory → Address → Option Address
get_next m b = if is_zero (m b) then none else some (m b)

-- `log_bytes` is `B::LOG_BYTES`.
module _ (log_bytes : ℕ) where
  -- The pages from the cursor on: `log_page` is `S::LOG_BYTES`.
  unfoldable pub acquire_block_slow :
      (log_page : ℕ) → BlockPageResource → ℕ → Option (Address × Address) × BlockPageResource
  acquire_block_slow log_page r pages = if leb r.highwater r.cursor then (none, r) else (
    some (r.cursor, Page.forward log_page r.cursor pages),
    record r { cursor = wrapping_add r.cursor (1 <<< log_bytes) },
  )

  unfoldable pub count_acquired : BlockPageResource → BlockPageResource
  count_acquired r = record r { reserved_bytes = wrapping_add r.reserved_bytes (1 <<< log_bytes) }

  -- With no other thread, each exchange of the head succeeds at once.
  unfoldable pub acquire_block : BlockPageResource → Memory → Acquired
  acquire_block r m = elim r.head [
    | some block ↦ record {
      block = some block;
      resource = count_acquired (record r { head = get_next m block });
      memory = m;
    }
    | none ↦
        let (range, r') = acquire_block_slow 12 r ((1 <<< log_bytes) >>> 12) in
        elim range [
          | none ↦ record { block = none; resource = r'; memory = m }
          | some pages ↦ record {
            block = some pages.0;
            resource = count_acquired r';
            memory = set_next m pages.0 none;
          }
        ]
  ]

  unfoldable pub release_block : BlockPageResource → Memory → Address → BlockPageResource × Memory
  release_block r m block = (
    record r {
      head = some block;
      reserved_bytes = wrapping_sub r.reserved_bytes (1 <<< log_bytes);
    },
    set_next m block r.head,
  )
