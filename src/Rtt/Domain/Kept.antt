-- ===== src/Rtt/Domain/Kept.antt =====
-- set/rtt/rtt_server.cpp: what `startDomain` keeps, in its turns and in its passes.
pub mod Turns
pub mod Passes
