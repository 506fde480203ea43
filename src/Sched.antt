-- ===== src/Sched.antt =====
-- The scheduler's queues of environments in kern/cpu/sched_helpers.c, the round-robin scheduler of
-- kern/cpu/sched.c, and the switch between an environment and the scheduler.
mod Defs
mod Ops
mod Switch
pub mod Fifo
pub mod State
pub mod RoundRobin
pub mod Turns
pub mod ExitNew
pub mod RunAll
pub mod Blocked
mod Tests
unfoldable pub use Defs.*
unfoldable pub use Ops.*
unfoldable pub use Switch.*
