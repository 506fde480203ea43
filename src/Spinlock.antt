-- ===== src/Spinlock.antt =====
-- The interrupt state of the CPU in kern/cpu/cpu.c and the spinlocks of kern/conc/spinlock.c.
mod Defs
pub mod Laws
mod Tests
unfoldable pub use Defs.*
