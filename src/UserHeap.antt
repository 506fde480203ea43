-- ===== src/UserHeap.antt =====
-- The heap of a user program: kern/mem/chunk_operations.c and lib/uheap.c over the page tables.
mod Defs
mod Ops
pub mod Search
pub mod Marks
pub mod Reserve
pub mod Malloc
mod Tests
unfoldable pub use Defs.*
unfoldable pub use Ops.*
