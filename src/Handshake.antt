-- ===== src/Handshake.antt =====
-- set/api/main.cpp, set/api/main1.cpp, set/tcp_rest/main2.cpp, set/tcp_rest/main3.cpp and
-- set/sigurg/main.cpp: programs in which a server thread and client threads of one process meet by a
-- flag and a condition variable. A function is a tree of calls, the threads' steps interleave in any
-- order, and what the system answers is a parameter of each step.
pub mod Prog
pub mod Threads
pub mod Api
pub mod Api1
pub mod Rest2
pub mod Rest3
pub mod Sigurg
pub mod Order
pub mod Rules
pub mod Asleep
pub mod Listens
pub mod Aborts
pub mod Missed
pub mod Closes
mod Tests
