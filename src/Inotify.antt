-- ===== src/Inotify.antt =====
-- set/inotify/main.cpp: the loop that prints what inotify(7) reports of a directory.
--
-- The layout of an event in the buffer and the bits of its mask are parameters: its length, its mask
-- and its name at an index. A part of the loop is a function of these and of what read(2) returns.
mod Defs
mod Tests
pub mod Walk
unfoldable pub use Defs.*
