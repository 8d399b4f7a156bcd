-- ===== src/Rtt.antt =====
-- set/rtt: the round-trip-time service over the reactor of the same folder.
pub mod Socket
pub mod Poll
pub mod Package
pub mod Translation
pub mod Client
pub mod Exchange
pub mod Accept
pub mod Domain
mod Tests
