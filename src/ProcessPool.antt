-- ===== src/ProcessPool.antt =====
-- set/process_pool: `ProcessPool`, `ProcessHandle` and `Billboard`.
--
-- A handle is a number. The name "process_poll_%d" of a process stands as the number in it. The ids
-- of the current thread, and what fork(2) returns, are arguments.
mod Defs
pub mod Handle
mod Main
mod Tests
pub mod Table
unfoldable pub use Defs.*
