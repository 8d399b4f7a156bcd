-- ===== src/UnixSocket.antt =====
-- set/unixsocket/main.cpp: a process that accepts connections and hands each over a socket pair to a
-- second process, which answers it.
--
-- One pass of each loop is a function of its state, of what poll(2) has set and of the results of the
-- other system calls. `exit(0)` is `none`, and a descriptor of -1 is `none` too.
mod Parent
mod Child
mod Tests
pub mod Handover
pub mod Serve
unfoldable pub use Parent.*
unfoldable pub use Child.*
