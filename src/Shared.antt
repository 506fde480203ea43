-- ===== src/Shared.antt =====
-- Shared memory: kern/mem/shared_memory_manager.c and its use in lib/uheap.c.
mod Defs
mod Ops
mod Calls
pub mod Creation
pub mod Backing
pub mod Joining
mod Tests
unfoldable pub use Defs.*
unfoldable pub use Ops.*
unfoldable pub use Calls.*
