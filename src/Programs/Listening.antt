-- ===== src/Programs/Listening.antt =====
-- What has succeeded where a server's loop starts.
use ex_netlink.Base.{◌≡◌, ◌⊎◌, none, some, List, [], ◌∷◌}
use ex_netlink.Sockops.Calls.{Result, returned, failed}
use ex_netlink.Programs.Sys.{
  stream, resolved, Call, socket, bind, listen, open_fifo, resolve, inotify_init, inotify_add_watch,
  Event, End, exited, entered, waits,
}

IsReturned : Result → Type 0
IsReturned (returned n) = Unit {0}
IsReturned (failed e) = ⊥

-- A call has succeeded, by the calls so far, the last one first.
pub Did : Call → List Event → Type 0
Did c [] = ⊥
Did c ((d, r) ∷ before) = ((d ≡ c) × IsReturned r) ⊎ Did c before

pub keep : Call → Result → List Event → List Event
keep c r before = (c, r) ∷ before

pub AnyCall : Call → List Event → Type 0
AnyCall c before = Unit {0}

-- The loop starts on a socket that is bound and listens, behind a pipe that is open; each end before
-- it is with -1.
pub EchoReady : End → List Event → Type 0
EchoReady (entered (fd ∷ [])) before =
    Did (listen fd 100) before
    × Did (bind fd resolved) before
    × Did resolve before
    × Did open_fifo before
EchoReady (exited code) before = code ≡ none
EchoReady waits before = Unit {0}
EchoReady e before = ⊥

-- The loop of the time server starts where listen(2) has succeeded, on the socket that it was called
-- with, or the program ends; nothing is said of bind(2).
pub TimeReady : End → List Event → Type 0
TimeReady (entered (fd ∷ [])) before = Did (listen fd 1) before × Did (socket stream) before
TimeReady (exited code) before = Unit {0}
TimeReady waits before = Unit {0}
TimeReady e before = ⊥

-- The loop of the watcher starts where the watch has been added; each end before it is with
-- EXIT_FAILURE. Nothing is said of the epoll instance.
pub WatchReady : End → List Event → Type 0
WatchReady (entered (e ∷ fd ∷ [])) before =
    Did (inotify_add_watch fd) before × Did inotify_init before
WatchReady (exited code) before = code ≡ some 1
WatchReady waits before = Unit {0}
WatchReady e before = ⊥
