-- ===== src/Lib.antt =====
-- ex-netlink: small network programs and the library code that they share.
--
-- The parts and their files; paths are from the repository's root.
--
-- Buffer (set/buffer/buffer.h) is the ring of bytes `circulation_buffer`: `Buffer` holds the
-- members buf_, length_, readindex_ and writeindex_; `append`, `skip`, `peek`, `make_memory` and
-- `relocation_location` are the member functions of these names, with `store_straight`,
-- `store_around`, `relocate_front`, `relocate_back`, `peek_raw`, `peek_both` and `reallocate` for
-- their branches. Buffer.Handle has the constructor, the destructor and the moves on a heap of
-- arrays. Buffer.Queue is the abstract view: a relation that says what each call may do to a queue
-- of bytes while its client stays within its room. Bytes (set/buffer/yendian.h) has the
-- conversions to and from network order.
--
-- Rtt (set/rtt) is the round-trip-time service. Rtt.Package has the package, the client's
-- arithmetic and (Rtt.Client) the ways in which its call ends (rtt_client.cpp), and the server's
-- handling of received bytes (rtt_server.cpp), which works on a `Buffer`; Rtt.Exchange follows an
-- exchange from the client through the server and back. Rtt.Domain has the server: its table of
-- connections and array of descriptors, the body of the loop of `startDomain` for one entry
-- (Rtt.Domain.Turn) and its passes (Rtt.Domain.Pass); Rtt.Domain.Idle is about the loop as the
-- source runs it, and Rtt.Domain.Kept says once what a pass keeps, for any predicate that each
-- single write keeps. The buffers of a connection (rtt_server.h) are in the data of its Connector
-- (Rtt.Translation). The source never stores them there, never calls `startDomain` and never sets
-- an entry's `revents`. Rtt.Socket (Fd.h, Socket.h) and Rtt.Poll (Poll.h) are the reactor over
-- poll(2) and the sockets in it, Rtt.Accept (Accept.h) the listening socket. Sockops (Sockops.h)
-- has the functions on sockets that report errors.
--
-- ThreadPool (set/thread_pool/ThreadPool.h) is the pool of workers as a step relation, at the
-- grain of critical sections and notifications; ThreadPool.Count has the latch and what a thread
-- does (Count.h, Thread.h), and ThreadPool.Start how a thread is started, as steps of the
-- constructor and of the new thread, and of wake-ups without a notification. Loop (set/loop) is
-- the event loop with its lists of callbacks and its timers.
--
-- Echo (set/echo/echo.server.cpp; set/echo_fd has the same file), UnixSocket
-- (set/unixsocket/main.cpp) and Netlink (main.cpp) are servers: a pass of the loop of each is a
-- function of its state and of the results of the system calls. Echo.Client is the client over
-- select(2) (set/echo/echo.client.cpp, echo.common.h), Echo.Devices the program that starts
-- clients for a list of network devices (set/echo_fd/echo.client.cpp), and Inotify
-- (set/inotify/main.cpp) the watcher of a directory. Atomic (set/atomic/main.cpp) has three
-- threads that print in turn, under any schedule, and Atomic.Zero those of main1.cpp; Atomic.Fair
-- has what both share on schedules in rounds.
--
-- Handshake has the programs in which a server thread and clients of one process meet by a flag
-- and a condition variable: Handshake.Api (set/api/main.cpp), Handshake.Api1 (set/api/main1.cpp),
-- Handshake.Rest2 and Handshake.Rest3 (set/tcp_rest/main2.cpp and main3.cpp) and Handshake.Sigurg
-- (set/sigurg/main.cpp). A function is a tree of calls (Handshake.Prog), each with its line in the
-- source, and Handshake.Threads interleaves the threads: an event is a step of one thread with the
-- system's answer, or a wake-up without a notification. A `wait` is in three steps, the look at
-- the flag, the block and the way back through the mutex. Handshake.Order says when a call of one
-- thread comes after a call of another in every interleaving.
--
-- Programs has the programs of one process that are sequences of system calls, and the starts of
-- the servers above, as trees of calls (Programs.Sys): Programs.Unix (set/abstractunix),
-- Programs.Multicast (set/muticast) and Programs.Starts (set/echo/echo.server.cpp,
-- set/time/server.cpp, set/unixsocket/main.cpp, set/inotify/main.cpp and set/tcp_rest/main.cpp). A
-- run is a tree with a list of the system's answers, and Programs.Rules says once how a property
-- of every run is shown on the tree. Loops take a number of passes.
--
-- TimeService (set/time) is a server that forks for each connection, as turns of its processes,
-- with the connections known by the order in which they are accepted, and its client. Inventory
-- (set/inventory/main.cpp) is a list of weak pointers to objects. Bar (set/str/bar.h) is a string
-- class on a store of blocks (Bar.Make has its constructors and its assignment, Bar.Blocks what
-- holds at the end of the store), and Sso (set/str/bar_view.h) one that is to keep short strings
-- in place. AsyncNet (set/poll/main.cpp) opens a socket that does not block. Sample
-- (set/sample/sample.cpp) prints the options of a socket and the addresses of hosts. ProcessPool
-- (set/process_pool) makes processes and keeps their handles (ProcessPool.Handle).
--
-- Base has the names of the libraries that the others share, Boolean tests on numbers, arithmetic
-- on 64-bit words, slices of lists and weighted sums.
--
-- How the code is read: a state is a record and an operation a function on it; `none` is a fault
-- (memory outside an array, a failed assertion, a shift by the full width, a mutex locked twice,
-- an exit), or, where a file says so, a descriptor of -1. Words of 64 bits wrap, with `add64`,
-- `sub64` and `mul64`. The arrays of a buffer are shorter than 2^62 bytes. The results of system
-- calls, clock readings, the bytes of fresh memory and the bodies of callbacks are arguments.
--
-- Fuel: the loop over a netlink datagram takes the number of its bytes and one more, which is
-- enough because each message takes at least one byte off. The watcher's walk takes the number of
-- bytes and one more, since an event has 16 bytes at least, and its `for` loop the number of
-- events and one more. A server's `while (true)` in Handshake, a `while (1)` in Programs and the
-- loop of `startDomain` take their number of passes, over which the theorems are general. Every
-- other loop is recursion on a list.
--
-- Not modelled: printing; the clearing and filling of structures that are handed to a system call,
-- where the call's answer does not depend on it; set/echo_fd/echo.server.cpp, which is the same
-- file as set/echo/echo.server.cpp; the send and recv of Billboard.h, which have no body; and the
-- exercises of the language (set/macro, include/algor). The kernel probe of set/hook needs the
-- kernel's headers.
pub mod Base
pub mod Bytes
pub mod Buffer
pub mod Rtt
pub mod ThreadPool
pub mod Loop
pub mod Echo
pub mod Atomic
pub mod Sockops
pub mod Netlink
pub mod UnixSocket
pub mod Inventory
pub mod Bar
pub mod AsyncNet
pub mod ProcessPool
pub mod Handshake
pub mod Inotify
pub mod TimeService
pub mod Sso
pub mod Programs
pub mod Sample
