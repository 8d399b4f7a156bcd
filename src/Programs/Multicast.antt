-- ===== src/Programs/Multicast.antt =====
-- set/muticast/muticast.server.cpp, which sends to a group, and muticast.client.cpp, which receives.
use ex_netlink.Base.{ℕ, zero, suc, none, some}
use ex_netlink.Sockops.Calls.{Result, returned, failed}
use ex_netlink.Programs.Sys.{
  datagram, Address, inet, Fd, socket, bind, close, sendto, recvfrom, add_membership, report, print,
  Prog, exits, pauses, call, fd_of, ◌>>=◌, ◌>>◌, or_exit,
}

-- 224.224.224.224, port 9999
abbrev pub group : Address
group = inet 224 224 224 224 9999

-- Behind `break`.
unfoldable pub leave : Fd → Prog
leave fd = do call report; call (close fd); exits (some 0)

-- `n` passes of the loop of the server: a failure is reported and ends it.
unfoldable pub sent : Result → Fd → Prog → Prog
sent (failed e) fd p = leave fd
sent (returned k) fd p = p

unfoldable pub send_all : ℕ → Fd → Prog
send_all zero fd = pauses
send_all (suc n) fd = call (sendto fd 1024 group) (λ r. sent r fd (send_all n fd))

unfoldable pub server : ℕ → Prog
server n = do fd ← call (socket datagram); or_exit fd none (send_all n (fd_of fd))

-- `n` passes of the loop of the client, which prints what it receives.
unfoldable pub received : Result → Fd → Prog → Prog
received (failed e) fd p = leave fd
received (returned k) fd p = call print (λ r. p)

unfoldable pub receive_all : ℕ → Fd → Prog
receive_all zero fd = pauses
receive_all (suc n) fd = call (recvfrom fd 1024) (λ r. received r fd (receive_all n fd))

unfoldable pub receive_on : ℕ → Fd → Prog
receive_on n fd = do
  m ← call (add_membership fd)
  or_exit m none (call (bind fd group) (λ b. or_exit b none (receive_all n fd)))

unfoldable pub client : ℕ → Prog
client n = do fd ← call (socket datagram); or_exit fd none (receive_on n (fd_of fd))
