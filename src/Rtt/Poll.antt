-- ===== src/Rtt/Poll.antt =====
-- set/rtt/Poll.h: `Poll`, the reactor over poll(2).
mod Defs
pub mod Table
pub mod Events
unfoldable pub use Defs.*
