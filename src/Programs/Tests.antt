-- ===== src/Programs/Tests.antt =====
-- Runs of the programs on a few answers of the system.
use ex_netlink.Base.{◌≡◌, refl, some, List, [], ◌∷◌}
use ex_netlink.Sockops.{eagain}
use ex_netlink.Sockops.Calls.{Result, returned, failed}
use ex_netlink.Programs.Sys.{
  datagram, sendto, close, socket, report, run, entered, exited, or_exit, or_report, fd_of,
}
use ex_netlink.Programs.Rules.{Follows}
use ex_netlink.Programs.Multicast
use ex_netlink.Programs.Starts.{
  echo_server, create_fifo, make_pipe, open_pipe, echo_listens, or_leave, time_server, time_on,
  time_binds, time_listens,
}
use ex_netlink.Programs.Owned.{step, IsOwned, IsClean, group_server, run-IsOwned}

-- The second of three sends fails.
abbrev answers : List Result
answers = returned 3 ∷ returned 1024 ∷ failed eagain ∷ returned 0 ∷ returned 0 ∷ []

sends_then_closes : run (Multicast.server 3) answers ≡ (
  (socket datagram, returned 3)
      ∷ (sendto (some 3) 1024 Multicast.group, returned 1024)
      ∷ (sendto (some 3) 1024 Multicast.group, failed eagain)
      ∷ (report, returned 0)
      ∷ (close (some 3), returned 0)
      ∷ [],
  exited (some 0),
)
unfolding run Multicast.server Multicast.send_all Multicast.sent Multicast.leave or_exit fd_of
sends_then_closes = refl

run-IsOwned_example :
    Follows step IsOwned IsClean []
      (run (Multicast.server 3) answers).0
      (run (Multicast.server 3) answers).1
run-IsOwned_example = run-IsOwned answers (group_server 3)

-- Every call succeeds.
abbrev all_succeed : List Result
all_succeed =
    returned 0
    ∷ returned 0
    ∷ returned 0
    ∷ returned 4
    ∷ returned 5
    ∷ returned 0
    ∷ returned 0
    ∷ returned 0
    ∷ []

echo_enters : (run echo_server all_succeed).1 ≡ entered (some 5 ∷ [])
unfolding run echo_server create_fifo make_pipe open_pipe or_exit echo_listens or_leave fd_of
echo_enters = refl

-- The time server goes on where bind(2) has failed.
time_enters_unbound :
    (run time_server
      (returned 3 ∷ returned 0 ∷ returned 0 ∷ failed eagain ∷ returned 0 ∷ returned 0 ∷ [])).1
    ≡ entered (some 3 ∷ [])
unfolding run time_server or_exit time_on or_report time_binds time_listens fd_of
time_enters_unbound = refl
