-- ===== src/Loop.antt =====
-- set/loop/Loop.h and Loop.cpp: `Loop`, an event loop with two lists of callbacks, timers and a
-- source of I/O.
--
-- A callback is a number; what its body does to the loop is a parameter, `body`, a list of calls of
-- the loop's own operations, and so is what the handlers behind `io_handle_->run` do, `io`. The
-- clock's readings are a list, two for each round. The timers are kept sorted, as
-- `std::priority_queue` hands them out; among equal times the order of insertion is taken, which the
-- library leaves open. A `std::mutex` that the same thread locks again is a fault, `none`. `ran` is a
-- log of the callbacks run and `waits` of the timeouts given to `io_handle_->run`.
mod Defs
mod Tests
pub mod Run
pub mod Timers
unfoldable pub use Defs.*
