-- ===== src/Conc.antt =====
-- Channels of kern/conc/channel.c, on which blocked environments wait, and the sleep locks of
-- kern/conc/sleeplock.c.
mod Defs
pub mod Wakeup
pub mod Release
pub mod WakeOne
pub mod Acquire
pub mod Asleep
mod Tests
unfoldable pub use Defs.*
