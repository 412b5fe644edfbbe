-- ===== src/Hoard.antt =====
-- The Hoard allocator of hoard/src.
pub mod SuperBlock
pub mod EmptyClass
pub mod BlockList
pub mod Allocator
