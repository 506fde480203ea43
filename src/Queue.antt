-- ===== src/Queue.antt =====
-- The doubly linked lists of inc/queue.h: the LIST_* macros on a list head and on the link fields
-- of its elements. An element is its address, and 0 is NULL.
mod Defs
pub mod Chain
pub mod Insert
pub mod Remove
pub mod Concat
pub mod Keeps
mod Tests
unfoldable pub use Defs.*
