-- ===== src/Handshake/Api.antt =====
-- set/api/main.cpp: a server and four clients, with urgent data.
use ex_netlink.Base.{ℕ, zero, suc, Option, none, some, true, false, List, [], ◌∷◌}
use ex_netlink.Handshake.Prog.{
  Host, inaddr_any, inet_addr, so_reuseaddr, so_reuseport, Fd, socket, setsockopt, bind, connect,
  listen, accept, close, getsockname, getpeername, recv, send, printf, store, notify_all, lock,
  unlock, wait, start, Prog, done, ◌>>=◌, ◌>>◌, at, does, reports, asserts,
}

-- `n` passes of the loop `while (true)`.
unfoldable pub serve : ℕ → Fd → Prog
serve zero fd = done
serve (suc n) fd = do
  connectfd ← at 52 (accept fd)
  reports connectfd 54
  e ← at 58 (recv connectfd 1024 false)
  reports e 59
  named ← at 66 (getsockname connectfd)
  asserts named
  at 70 printf
  peer ← at 73 (getpeername connectfd)
  asserts peer
  at 77 printf
  at 79 printf
  at 80 (close connectfd)
  serve n fd

unfoldable pub server : ℕ → Prog
server n = do
  fd ← at 25 socket
  reports fd 27
  at 31 (setsockopt fd so_reuseaddr)
  at 33 (setsockopt fd so_reuseport)
  e ← at 41 (bind fd inaddr_any 1234)
  reports e 42
  l ← at 45 (listen fd 100)
  reports l 46
  does (store 0)
  does (notify_all 0)
  serve n fd

-- The end of `client`, by the answer of `connect`.
unfoldable pub client_connected : Fd → Option ℕ → Prog
client_connected fd none = do at 120 printf; done
client_connected fd (some e) = do
  se ← at 115 (send fd 4 true)
  reports se 116
  at 118 (close fd)
  done

unfoldable pub client : Host → Host → Prog
client remote_addr local_addr = do
  fd ← at 85 socket
  reports fd 87
  e ← at 100 (bind fd local_addr 0)
  reports e 101
  does (lock 0)
  does (wait 0)
  does (unlock 0)
  c ← at 113 (connect fd remote_addr 1234)
  client_connected fd c

-- Its last loop, `while (1)`, makes no call.
unfoldable pub main : Prog
main = do does (start 1); does (start 2); does (start 3); does (start 4); does (start 5); done

-- The functions of the threads, `main` first.
unfoldable pub threads : ℕ → List Prog
threads n =
    main
    ∷ server n
    ∷ client (inet_addr 127 0 0 1) (inet_addr 172 16 5 4)
    ∷ client (inet_addr 172 16 5 4) (inet_addr 127 0 0 1)
    ∷ client (inet_addr 127 0 0 1) inaddr_any
    ∷ client (inet_addr 172 16 5 4) inaddr_any
    ∷ []
