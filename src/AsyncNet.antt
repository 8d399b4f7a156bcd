-- ===== src/AsyncNet.antt =====
-- set/poll/main.cpp: `async_net`, which opens a socket that does not block and starts to connect it.
--
-- The results of the system calls are arguments. A function that returns a negative number returns
-- `none` or `false` here.
mod Defs
mod Tests
pub mod Open
unfoldable pub use Defs.*
