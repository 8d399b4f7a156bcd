-- ===== src/Handshake/Tests.antt =====
-- Runs of the programs under chosen orders of steps.
use ex_netlink.Base.{ℕ, Option, none, some, List, [], ◌∷◌, true, ◌≡◌, refl, arith}
use ex_netlink.Handshake.Prog.{Sys, getsockname, accept}
use ex_netlink.Handshake.Threads.{
  Entry, Event, runs, wakes_up, run_events, process, step, resume, perform, blocked,
}
use ex_netlink.Handshake.Order.{Ordered}
use ex_netlink.Handshake.Listens.{
  is_listen, is_connect, threads_of, sigurg, run_events-connect_after_listen,
}
use ex_netlink.Handshake.Missed.{missed, run_events-lost_wakeup}
use ex_netlink.Handshake.Aborts.{aborts}
use ex_netlink.Handshake.Api
use ex_netlink.Handshake.Api1
use ex_netlink.Handshake.Rest2
use ex_netlink.Handshake.Rest3
use ex_netlink.Handshake.Sigurg

-- The server listens and stores the flag, and the client connects.
abbrev meeting : List Event
meeting =
    runs 0 none 0
    ∷ runs 0 none 0
    ∷ runs 1 (some 3) 0
    ∷ runs 1 (some 0) 0
    ∷ runs 1 (some 0) 0
    ∷ runs 2 (some 4) 0
    ∷ runs 2 (some 0) 0
    ∷ runs 2 none 0
    ∷ runs 1 none 0
    ∷ runs 2 none 0
    ∷ runs 2 none 0
    ∷ runs 2 (some 0) 0
    ∷ []

-- The last call of that run is the client's `connect`.
abbrev last_line : List Entry → ℕ
last_line [] = 0
last_line (e ∷ log) = e.line

meeting_connects : last_line (run_events meeting (process (Sigurg.threads 1))).log ≡ 105
unfolding process step resume perform Sigurg.threads Sigurg.main Sigurg.server Sigurg.client
meeting_connects = refl

run_events-connect_after_listen_example :
    Ordered is_listen is_connect (run_events meeting (process (threads_of sigurg 1))).log
run_events-connect_after_listen_example = run_events-connect_after_listen sigurg 1 meeting

-- The server accepts a connection, and the other clients start.
abbrev later : List Event
later = runs 1 (some 9) 0 ∷ runs 3 (some 5) 0 ∷ runs 2 none 0 ∷ wakes_up 3 0 ∷ []

run_events-lost_wakeup_example :
    ((run_events missed (process (Api.threads 1))).flags 0 ≡ true)
    × ((run_events later (run_events missed (process (Api.threads 1)))).phases 2 ≡ blocked 0)
run_events-lost_wakeup_example =
    run_events-lost_wakeup 1 later
      (omega arith, (omega arith, (omega arith, ((λ e. absurd (omega (arith, e))), tt))))

-- Nothing but `accept`, and any call on -1, fails.
abbrev no_listen : Sys → Option ℕ
no_listen (accept fd) = none
no_listen (getsockname none) = none
no_listen s = some 3

no_listen-aborts : aborts no_listen (Api1.server 1) ≡ true
unfolding aborts Api1.server Api1.serve
no_listen-aborts = refl
