-- ===== src/Programs/Starts.antt =====
-- What comes before the loops of set/echo/echo.server.cpp, set/time/server.cpp, set/unixsocket/main.cpp
-- (`parent_process`) and set/inotify/main.cpp; and set/tcp_rest/main.cpp.
use ex_netlink.Base.{ℕ, zero, suc, Option, none, some, [], ◌∷◌, Bool, if◌then◌else◌}
use ex_netlink.Sockops.Calls.{Result, returned, failed}
use ex_netlink.Programs.Sys.{
  stream, inet, inaddr_any, resolved, Fd, socket, bind, connect, listen, set_reuse_port,
  set_reuse_addr, block_signals, catch_child, access, mkfifo, open_fifo, resolve, epoll_create,
  inotify_init, inotify_add_watch, epoll_add, waitpid, report, print, Prog, exits, enters, pauses,
  call, fd_of, ◌>>=◌, ◌>>◌, or_exit, or_report,
}

-- `n` turns of the loop of `sigchild_handle`, behind which the handler returns to `p`: the comparison
-- is what `pid` is, so that a child is there just if it is 1.
unfoldable pub reaped : Result → Prog → Prog → Prog
reaped (failed e) again p = p
reaped (returned zero) again p = p
reaped (returned (suc pid)) again p = call print (λ r. again)

unfoldable pub sigchild_handle : ℕ → Prog → Prog
sigchild_handle zero p = pauses
sigchild_handle (suc n) p = call waitpid (λ r. reaped r (sigchild_handle n p) p)

-- `create_fifo`: the pipe is made where it is not there, and opened for writing.
unfoldable pub open_pipe : (Fd → Prog) → Prog
open_pipe p = call open_fifo (λ f. or_exit f none (p (fd_of f)))

unfoldable pub make_pipe : Result → (Fd → Prog) → Prog
make_pipe (returned n) p = open_pipe p
make_pipe (failed e) p = call mkfifo (λ m. or_exit m none (open_pipe p))

unfoldable pub create_fifo : (Fd → Prog) → Prog
create_fifo p = call access (λ a. make_pipe a p)

-- An address that is not found ends the program without a report.
unfoldable pub or_leave : Result → Prog → Prog
or_leave (returned n) p = p
or_leave (failed e) p = exits none

-- `signal_t`: the flag that is set, and the handler that was there before; `none` is SIG_ERR.
pub data Flag : Type 0 where
  sa_interrupt sa_restart : Flag

unfoldable pub signal_t : Bool → Result → Flag × Option ℕ
signal_t is_alarm sigaction = (if is_alarm then sa_interrupt else sa_restart, fd_of sigaction)

-- What socket(2) returns is not looked at.
unfoldable pub echo_listens : Fd → Prog
echo_listens fifo = do
  fd ← call (socket stream)
  a ← call resolve
  or_leave a (do
    b ← call (bind (fd_of fd) resolved)
    or_exit b none (do l ← call (listen (fd_of fd) 100); or_exit l none (enters (fd_of fd ∷ []))))

-- `main` up to its loop, with WAIT_WAKEUP defined.
unfoldable pub echo_server : Prog
echo_server = do call block_signals; call catch_child; create_fifo echo_listens

-- set/time/server.cpp: failures but those of socket(2) and listen(2) are reported alone.
unfoldable pub time_listens : Result → Fd → Prog
time_listens (failed e) fd = call report (λ r. exits (some 0))
time_listens (returned n) fd = enters (fd ∷ [])

unfoldable pub time_binds : Fd → Prog
time_binds fd = do
  b ← call (bind fd (inet 127 0 0 1 13))
  or_report b (call (listen fd 1) (λ l. time_listens l fd))

unfoldable pub time_on : Fd → Prog
time_on fd = do
  p ← call (set_reuse_port fd)
  or_report p (call (set_reuse_addr fd) (λ a. or_report a (time_binds fd)))

unfoldable pub time_server : Prog
time_server = do fd ← call (socket stream); or_exit fd none (time_on (fd_of fd))

-- set/unixsocket/main.cpp, `parent_process`: no failure ends it.
unfoldable pub parent_process : Fd → Prog
parent_process fd = do
  s ← call (socket stream)
  or_report s (do
    b ← call (bind (fd_of s) (inaddr_any 9901))
    or_report b (do call (listen (fd_of s) 30); enters (fd_of s ∷ fd ∷ [])))

-- set/inotify/main.cpp; `exits (some 1)` is EXIT_FAILURE.
unfoldable pub watcher : Prog
watcher = do
  e ← call epoll_create
  fd ← call inotify_init
  or_exit fd (some 1) (do
    w ← call (inotify_add_watch (fd_of fd))
    or_exit w (some 1) (do call (epoll_add (fd_of e) (fd_of fd)); enters (fd_of e ∷ fd_of fd ∷ [])))

-- set/tcp_rest/main.cpp: failures are printed.
unfoldable pub connects : Prog
connects = do
  fd ← call (socket stream)
  or_report fd
      (do c ← call (connect (fd_of fd) (inet 127 0 0 1 1234)); or_report c (exits (some 0)))
