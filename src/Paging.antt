-- ===== src/Paging.antt =====
-- Paging: kern/mem/memory_manager.c and kern/mem/paging_helpers.c, with the translation between
-- virtual and physical addresses of kern/mem/kheap.c.
mod Defs
mod Ops
pub mod Tables
pub mod Mapping
pub mod Unmapping
pub mod Cycle
pub mod Addresses
pub mod Located
mod Tests
unfoldable pub use Defs.*
unfoldable pub use Ops.*
