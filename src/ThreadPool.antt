-- ===== src/ThreadPool.antt =====
-- set/thread_pool/ThreadPool.h: `ThreadPool`, workers that share a queue under one mutex and one
-- condition variable.
--
-- A critical section is one step; so is each call of `notify_one` and `notify_all`, which come after
-- the mutex has been released. A worker is one of four program points. A task is a number, its
-- identity; whether it returns or throws, the worker goes on (`catch (...)`). The fields `pushed`,
-- `taken` and `done` are logs of the run, which no code reads.
mod Defs
pub mod Inv
pub mod Start
pub mod Count
mod Tests
unfoldable pub use Defs.*
