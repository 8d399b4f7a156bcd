-- ===== src/Sockops.antt =====
-- set/rtt/Sockops.h: the functions on sockets that report an error as a `std::error_condition`.
--
-- The system calls' results are arguments: `none` is success, and `some e` a failure that sets
-- `errno` to `e`. `errno` before the call is an argument too, since some paths report it without a
-- failed call. A condition is `some e`, or `none` for "no error".
mod Defs
pub mod Calls
mod Tests
pub mod Connect
unfoldable pub use Defs.*
