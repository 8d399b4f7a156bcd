-- ===== src/Handshake/Api1.antt =====
-- set/api/main1.cpp: the server alone, without `listen`.
use ex_netlink.Base.{ℕ, zero, suc, Option, none, some, true, false, List, [], ◌∷◌}
use ex_netlink.Handshake.Prog.{
  Host, inaddr_any, so_reuseaddr, so_reuseport, Fd, socket, setsockopt, bind, connect, accept,
  close, getsockname, getpeername, recv, send, printf, store, notify_all, lock, unlock, wait, start,
  join, Prog, done, ◌>>=◌, ◌>>◌, at, does, reports, asserts,
}

-- `n` passes of the loop `while (true)`.
unfoldable pub serve : ℕ → Fd → Prog
serve zero fd = done
serve (suc n) fd = do
  connectfd ← at 53 (accept fd)
  reports connectfd 55
  e ← at 59 (recv connectfd 1024 false)
  reports e 60
  named ← at 67 (getsockname connectfd)
  asserts named
  at 71 printf
  peer ← at 74 (getpeername connectfd)
  asserts peer
  at 78 printf
  at 80 printf
  at 81 (close connectfd)
  serve n fd

unfoldable pub server : ℕ → Prog
server n = do
  fd ← at 25 socket
  reports fd 27
  at 31 (setsockopt fd so_reuseaddr)
  at 33 (setsockopt fd so_reuseport)
  e ← at 41 (bind fd inaddr_any 1234)
  reports e 42
  does (store 0)
  does (notify_all 0)
  serve n fd

-- The end of `client`, by the answer of `connect`.
unfoldable pub client_connected : Fd → Option ℕ → Prog
client_connected fd none = do at 121 printf; done
client_connected fd (some e) = do
  se ← at 116 (send fd 4 true)
  reports se 117
  at 119 (close fd)
  done

-- No thread runs it.
unfoldable pub client : Host → Host → Prog
client remote_addr local_addr = do
  fd ← at 86 socket
  reports fd 88
  e ← at 101 (bind fd local_addr 0)
  reports e 102
  does (lock 0)
  does (wait 0)
  does (unlock 0)
  c ← at 114 (connect fd remote_addr 1234)
  client_connected fd c

unfoldable pub main : Prog
main = do does (start 1); does (join 1); done

-- The functions of the threads, `main` first.
unfoldable pub threads : ℕ → List Prog
threads n = main ∷ server n ∷ []
