-- ===== src/Programs.antt =====
-- Programs of one process that are sequences of system calls, as trees of these calls: the abstract
-- sockets (set/abstractunix), multicast (set/muticast), set/tcp_rest/main.cpp, and the starts of the
-- servers in set/echo, set/time, set/unixsocket and set/inotify.
pub mod Sys
pub mod Rules
pub mod Unix
pub mod Multicast
pub mod Starts
pub mod Owned
pub mod Listening
mod Tests
