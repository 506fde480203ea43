-- ===== src/Fault.antt =====
-- Page faults: kern/trap/fault_handler.c over the page tables and the page file.
mod Defs
mod Ops
mod Handler
mod PageFile
pub mod Clock
pub mod Rounds
pub mod WorkingSet
pub mod Sweeps
pub mod Victim
pub mod Entries
pub mod Placement
pub mod Pointers
mod Tests
unfoldable pub use Defs.*
unfoldable pub use Ops.*
unfoldable pub use Handler.*
