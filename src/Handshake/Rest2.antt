-- ===== src/Handshake/Rest2.antt =====
-- set/tcp_rest/main2.cpp: a client that writes again after the server has closed the connection.
use ex_netlink.Base.{ℕ, zero, suc, Option, none, some, List, [], ◌∷◌}
use ex_netlink.Handshake.Prog.{
  inaddr_any, inet_addr, tcp_nodelay, Fd, socket, setsockopt, bind, connect, listen, accept, close,
  write, printf, block_sigpipe, start, store, notify_one, lock, unlock, wait, Prog, done, ◌>>=◌,
  ◌>>◌, at, does, reports,
}

-- The scopes of `lk` and `lk1` end where the function returns.
unfoldable pub client_wrote_again : Fd → Option ℕ → Prog
client_wrote_again fd none = do
  at 60 printf
  at 61 (close fd)
  does (unlock 1)
  does (unlock 0)
  done
client_wrote_again fd (some ws) = do does (unlock 1); does (unlock 0); done

unfoldable pub client_wrote : Fd → Option ℕ → Prog
client_wrote fd none = do at 52 printf; at 53 (close fd); does (unlock 0); done
client_wrote fd (some ws1) = do
  does (lock 1)
  does (wait 1)
  ws ← at 59 (write fd 1024)
  client_wrote_again fd ws

unfoldable pub client_connected : Fd → Option ℕ → Prog
client_connected fd none = do at 47 printf; does (unlock 0); done
client_connected fd (some e) = do ws1 ← at 51 (write fd 1024); client_wrote fd ws1

unfoldable pub client : Prog
client = do
  fd ← at 26 socket
  reports fd 29
  at 33 (setsockopt fd tcp_nodelay)
  does (lock 0)
  does (wait 0)
  e ← at 46 (connect fd (inet_addr 127 0 0 1) 1234)
  client_connected fd e

-- `n` passes of the loop `while (true)`.
unfoldable pub serve : ℕ → Fd → Prog
serve zero fd = done
serve (suc n) fd = do
  cd ← at 100 (accept fd)
  reports cd 103
  at 106 (close cd)
  does (store 1)
  does (notify_one 1)
  at 109 printf
  serve n fd

unfoldable pub server : ℕ → Prog
server n = do
  fd ← at 69 socket
  reports fd 71
  at 79 (setsockopt fd tcp_nodelay)
  e ← at 85 (bind fd inaddr_any 1234)
  reports e 86
  l ← at 89 (listen fd 100)
  reports l 90
  does (store 0)
  does (notify_one 0)
  serve n fd

-- Its last loop, `while (1)`, makes no call.
unfoldable pub main : Prog
main = do at 117 block_sigpipe; does (start 1); does (start 2); done

-- The functions of the threads, `main` first.
unfoldable pub threads : ℕ → List Prog
threads n = main ∷ client ∷ server n ∷ []
