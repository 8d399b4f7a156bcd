-- ===== src/TimeService.antt =====
-- set/time/server.cpp and set/time/client.cpp: a server that forks a process for each connection, and
-- its client.
mod Defs
mod Tests
pub mod Kept
unfoldable pub use Defs.*
