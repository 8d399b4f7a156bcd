-- ===== src/Rtt/Domain.antt =====
-- set/rtt/rtt_server.cpp: the server. Defs has its members, onNewConnect and dispose, Turn the body of
-- the loop of `startDomain` for one entry, and Pass the loop.
--
-- A connection is known by its descriptor; -1 is `none`.
mod Defs
pub mod Turn
pub mod Pass
pub mod Kept
pub mod Idle
mod Tests
mod Inversion
pub mod Matched
pub mod Reach
pub mod Unsent
unfoldable pub use Defs.*
