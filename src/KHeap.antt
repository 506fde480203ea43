-- ===== src/KHeap.antt =====
-- The kernel heap: `kmalloc`, `kfree` and `krealloc` of kern/mem/kheap.c over the block allocator.
mod Defs
mod Ops
mod Resize
pub mod Ranges
pub mod Joins
pub mod Entering
pub mod Pages
pub mod Unpages
pub mod Back
pub mod Releasing
pub mod RoundTrip
pub mod Grown
pub mod Freeing
mod Tests
unfoldable pub use Defs.*
unfoldable pub use Ops.*
unfoldable pub use Resize.*
