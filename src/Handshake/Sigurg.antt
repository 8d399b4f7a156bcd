-- ===== src/Handshake/Sigurg.antt =====
-- set/sigurg/main.cpp: a server that is told of urgent data by a signal.
use ex_netlink.Base.{ℕ, zero, suc, Option, none, some, true, false, List, [], ◌∷◌}
use ex_netlink.Handshake.Prog.{
  inaddr_any, inet_addr, Fd, socket, bind, connect, listen, accept, close, recv, send, setown,
  sigaction, printf, store, notify_one, lock, unlock, wait, start, Prog, done, Act, ◌>>=◌, ◌>>◌, at,
  does, reports,
}

-- `addsig`: only its `sigaction` leaves the process.
unfoldable pub addsig : Act
addsig k = at 31 sigaction k

-- `n` passes of the loop `while (true)`.
unfoldable pub serve : ℕ → Fd → Prog
serve zero fd = done
serve (suc n) fd = do
  connectfd ← at 57 (accept fd)
  reports connectfd 59
  addsig
  at 63 (setown connectfd)
  e ← at 65 (recv connectfd 1024 false)
  reports e 66
  at 69 printf
  u ← at 71 (recv connectfd 1024 true)
  reports u 72
  at 75 printf
  at 76 (close connectfd)
  serve n fd

unfoldable pub server : ℕ → Prog
server n = do
  fd ← at 35 socket
  reports fd 37
  e ← at 46 (bind fd inaddr_any 1234)
  reports e 47
  l ← at 50 (listen fd 100)
  reports l 51
  does (store 0)
  does (notify_one 0)
  serve n fd

-- The end of `client`, by the answer of `connect`.
unfoldable pub client_connected : Fd → Option ℕ → Prog
client_connected fd none = do at 112 printf; done
client_connected fd (some e) = do
  se ← at 107 (send fd 4 true)
  reports se 108
  at 110 (close fd)
  done

unfoldable pub client : Prog
client = do
  fd ← at 81 socket
  reports fd 83
  e ← at 92 (bind fd inaddr_any 4567)
  reports e 93
  does (lock 0)
  does (wait 0)
  does (unlock 0)
  c ← at 105 (connect fd (inet_addr 127 0 0 1) 1234)
  client_connected fd c

-- Its last loop, `while (1)`, makes no call.
unfoldable pub main : Prog
main = do does (start 1); does (start 2); done

-- The functions of the threads, `main` first.
unfoldable pub threads : ℕ → List Prog
threads n = main ∷ server n ∷ client ∷ []
