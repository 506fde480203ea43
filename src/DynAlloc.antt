-- ===== src/DynAlloc.antt =====
-- The dynamic block allocator of lib/dynamic_allocator.c over the kernel heap's `sbrk` of
-- kern/mem/kheap.c: boundary tags in byte memory and a list of the free blocks.
mod Defs
mod Ops
pub mod Init
pub mod BestFit
mod Resize
pub mod Shrink
pub mod Sorted
pub mod Heaps
pub mod Coalesce
pub mod Free
pub mod Neighbours
pub mod FreeBlock
pub mod Release
pub mod Take
pub mod FirstFit
pub mod Sbrk
pub mod Grow
pub mod FirstFitAlloc
pub mod AllocSpec
mod Tests
pub mod Alloc
pub mod SplitTags
pub mod Carve
pub mod Merge
pub mod Tiling
unfoldable pub use Defs.*
unfoldable pub use Ops.*
unfoldable pub use Resize.*
