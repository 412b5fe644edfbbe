-- ===== src/Lib.antt =====
-- A model of MallocKit, a kit of memory allocators, and of what its parts promise.
--
-- The kit gives a plan (bump, buddy, hoard) spaces in one reserved heap. A space takes runs of pages or blocks from
-- a page resource; an allocator of a thread cuts them into cells; the C interface in front rounds a request,
-- asks the mutator of the thread, and reports errors. The files, from the bottom up (paths from the root of
-- the repository):
--   Base, Bits, Masks, Powers: the arithmetic of 64-bit words on native numbers, bit operations against powers of
--     two, Boolean tests, and arrays.
--   Address: mallockit/src/util/mem/address.rs. Page: util/mem/page.rs. BitField: util/bits.rs. Layout:
--     util/mem/layout_utils.rs. SizeClass: util/mem/size_class.rs. SpaceId: space/mod.rs and util/mem/heap.rs.
--   Area: util/mem/alloc/allocation_area.rs. Bump: space/immortal_space.rs, which asks an area and then for pages.
--   Linked: doubly linked lists, with what an insertion in front and a bypass do to them.
--   Chain: lists of cells that are linked through their first words, and arrays of such lists (Chain/Bins).
--   Tlab: util/mem/alloc/discrete_tlab.rs, over Chain/Bins.
--   Region: the trait MemRegion of space/page_resource/block_page_resource.rs. Hoard/SuperBlock: hoard/src/super_block.rs.
--     BlockPages: BlockPageResource of the same file, its operations as functions, and in BlockPages/Threads as steps of
--     several threads over the shared words.
--     Hoard/EmptyClass and Hoard/BlockList: the lists of blocks of hoard/src/pool.rs, which are doubly linked through the
--     metadata of the blocks. Hoard/Allocator: the allocator of a thread of hoard/src/hoard_space.rs, over Tlab.
--   Buddy: the buddy allocator of util/mem/freelist/abstract_freelist.rs. Its trait is the record FreeList; what an
--     implementation must keep is the record IsFreeList of Buddy/Cover, and the abstract view is how often a unit is
--     covered by free cells, which forgets how the units are cut into cells.
--   Intrusive: util/mem/freelist/intrusive_freelist.rs, its arithmetic over Buddy; Intrusive/CellList has its doubly linked
--     lists of free cells, which are an instance of FreeList. FreeListSpace: space/freelist_space.rs; FreeListSpace/Source
--     has the free list of its allocator with pages taken one after the other, which obeys the laws assumed of it.
--   PageResource: space/page_resource/freelist_page_resource.rs. LargeObject: space/large_object_space.rs.
--   Buddy/LazyBst: the bits of abstract_freelist.rs. Arena: util/mem/alloc/arena.rs.
--   Lazy: util/lazy.rs, the shared value that one thread initialises, as steps of several threads.
--   MetaLocal: space/meta/meta_allocator.rs.
--   Mutator: mutator.rs. MallocApi: util/malloc/malloc_api.rs as on Linux. Stat: stat.rs.
--
-- A state is a record that each operation takes and returns; memory is a function from addresses. Words wrap at
-- 2^64 (and `u32` and `u8` at their widths), as in a release build; `debug_assert!` has no effect.
-- Code of other parts, such as a page free list under a page resource, is a record of operations with a record of
-- laws, and the tests have an instance of each.
--
-- Loops: the search and the splitting loop of Buddy count the classes that are left; the merging loop has
-- `threshold - size_class` rounds, after which the class is the last. `alloc_cell` of FreeListSpace and its slow path call each
-- other; two rounds are enough, since a page that was added serves any request; the same holds of `allocate_cell_slow` of
-- MetaLocal. The release of a range in Buddy counts its units. A loop over a chain has fuel
-- for its cells and one more round, and the search for the emptiest block has fuel for the blocks that are listed. The
-- retry loops of BlockPages are steps of a thread; as functions of one thread their first exchange succeeds.
--
-- Not modelled: thread-local storage and its start, system calls, output, the macOS zone, the locks, and
-- the orderings of memory weaker than an interleaving; the pools of Hoard above their lists with the global space, the page table and the page
-- free list are left for later.
pub mod Base
pub mod Bits
pub mod Masks
pub mod Powers
pub mod Address
pub mod Page
pub mod BitField
pub mod Layout
pub mod SizeClass
pub mod SpaceId
pub mod Area
pub mod Bump
pub mod Chain
pub mod Lazy
pub mod Linked
pub mod Tlab
pub mod Intrusive
pub mod FreeListSpace
pub mod PageResource
pub mod LargeObject
pub mod Stat
pub mod Mutator
pub mod MetaLocal
pub mod Arena
pub mod MallocApi
pub mod Region
pub mod BlockPages
pub mod Hoard
pub mod Buddy
