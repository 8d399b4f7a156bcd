-- ===== src/Echo.antt =====
-- set/echo/echo.server.cpp: the echo server over poll(2).
--
-- One pass of its loop is a function of the state, the results of its system calls and the bits that
-- poll(2) has set. A descriptor of -1 is `none`. What the pass does is a list of actions.
mod Server
mod Tests
pub mod Laws
pub mod Client
pub mod Shut
pub mod Devices
pub mod Doc
unfoldable pub use Server.*
