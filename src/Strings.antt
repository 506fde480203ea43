-- ===== src/Strings.antt =====
-- The routines of lib/string.c on bytes and on strings that end in 0.
mod Defs
pub mod Moves
pub mod Texts
mod Tests
unfoldable pub use Defs.*
