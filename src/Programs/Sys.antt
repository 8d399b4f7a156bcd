-- ===== src/Programs/Sys.antt =====
-- System calls, programs as trees of them, and their runs.
use ex_netlink.Base.{ℕ, Option, none, some, List, [], ◌∷◌}
use ex_netlink.Sockops.Calls.{Result, returned, failed}

pub data Kind : Type 0 where
  stream datagram : Kind

-- An address of IPv4 with its port, or the bytes of one in the UNIX domain; `resolved` is the one that
-- the name service gives for "echo".
pub data Address : Type 0 where
  inet : ℕ → ℕ → ℕ → ℕ → ℕ → Address
  inaddr_any : ℕ → Address
  unix : List ℕ → Address
  resolved : Address

-- A descriptor, `none` for -1.
abbrev pub Fd : Type 0
Fd = Option ℕ

pub data Call : Type 0 where
  socket : Kind → Call
  bind connect : Fd → Address → Call
  listen : Fd → ℕ → Call
  accept close : Fd → Call
  send recvfrom : Fd → ℕ → Call
  sendto : Fd → ℕ → Address → Call
  add_membership : Fd → Call
  set_reuse_port set_reuse_addr : Fd → Call
  block_signals catch_child access mkfifo open_fifo resolve : Call
  epoll_create inotify_init : Call
  inotify_add_watch : Fd → Call
  epoll_add : Fd → Fd → Call
  waitpid report print sleep : Call

-- A program from here on: its end with a code (`none` for -1), the start of a loop that is modelled
-- elsewhere on these descriptors, the end of the passes that a loop was given, or a call.
pub data Prog : Type 0 where
  exits : Option ℕ → Prog
  enters : List Fd → Prog
  pauses : Prog
  call : Call → (Result → Prog) → Prog

abbrev pub Event : Type 0
Event = Call × Result

-- How a run ends; `waits` where no answer is left for a call.
pub data End : Type 0 where
  exited : Option ℕ → End
  entered : List Fd → End
  paused waits : End

-- A run with the answers of the system: the calls that are answered, and the end.
unfoldable pub run : Prog → List Result → List Event × End
run (exits c) rs = ([], exited c)
run (enters fds) rs = ([], entered fds)
run pauses rs = ([], paused)
run (call c k) [] = ([], waits)
run (call c k) (r ∷ rs) = let (t, e) = run (k r) rs in ((c, r) ∷ t, e)

-- A call's result as a descriptor.
unfoldable pub fd_of : Result → Fd
fd_of (returned n) = some n
fd_of (failed e) = none

infixl 5 ◌>>=◌ ◌>>◌
abbrev pub ◌>>=◌ : ((Result → Prog) → Prog) → (Result → Prog) → Prog
◌>>=◌ m k = m k

abbrev pub ◌>>◌ : ((Result → Prog) → Prog) → Prog → Prog
◌>>◌ m p = m (λ r. p)

-- A failing call is reported and the program ends with a code.
unfoldable pub or_exit : Result → Option ℕ → Prog → Prog
or_exit (returned n) code p = p
or_exit (failed e) code p = call report (λ r. exits code)

-- A failing call is reported, and the program goes on.
unfoldable pub or_report : Result → Prog → Prog
or_report (returned n) p = p
or_report (failed e) p = call report (λ r. p)
