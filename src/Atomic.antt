-- ===== src/Atomic.antt =====
-- set/atomic/main.cpp and main1.cpp: `Foo`, three threads that print in turn, and `ZeroEvenOdd`.
--
-- The state is the counter and the point that each thread has reached; `out` is what has been
-- printed. The atomic operations are taken in one order, as `memory_order_seq_cst` gives it. A step
-- is one print, one store, or one load of the counter with its comparison; a schedule is a list of
-- the threads in the order in which they step.
mod Defs
mod Tests
pub mod Fair
pub mod Zero
pub mod Order
unfoldable pub use Defs.*
