-- ===== src/Echo/Tests.antt =====
-- Runs of the echo clients, and a pass of the echo server with three entries, of which one is readable and one has ended.
use ex_netlink.Base.{
  ◌++◌, map, arith, ℕ, ◌≡◌, Option, none, some, List, [], ◌∷◌, Bool, true, false, refl, ◌==◌,
  if◌then◌else◌,
}
use ex_netlink.Echo.{
  Slot, Read, bytes, end_of_file, accepted, sent, closed, EchoServer, continues, pass, accept_one,
  serve_clients, serve_all, serve_fd, answer, set_revents,
}
use ex_netlink.Echo.Laws.{Accounts, CallFails, pass-Accounts}
use ex_netlink.Echo.Client.{new_client, Input, received, peer_closed, continues, loop}
use ex_netlink.Echo.Shut.{Quiet, state, loop-Quiet}
use ex_netlink.Echo.Devices.{get_local_ip, find_ip, read_devices, doc, nonzero, IsLine}
use ex_netlink.Echo.Doc.{read_devices-doc}

abbrev idle : Option ℕ → Slot
idle f = record { fd = f; readable = false; failed = false }

abbrev three : EchoServer
three = record { clients = idle (some 4) ∷ idle (some 5) ∷ idle none ∷ []; count = 3 }

abbrev reads : ℕ → Read
reads f = if f == 4 then bytes (104 ∷ 105 ∷ []) else end_of_file

abbrev bits : List (Bool × Bool)
bits = (true, false) ∷ (true, false) ∷ []

pass-Accounts_example :
    Accounts
      (CallFails (some 3) true (some 6))
      reads
      three
      (pass (some 3) true bits (some 6) (idle none) reads three)
pass-Accounts_example = pass-Accounts (some 3) true bits (some 6) (idle none) reads three

-- It accepts 6, echoes on 4, and closes 5.
one_pass :
    pass (some 3) true bits (some 6) (idle none) reads three
    ≡ continues
        (record {
          clients =
              record { fd = some 4; readable = true; failed = false }
              ∷ record { fd = none; readable = true; failed = false }
              ∷ idle none
              ∷ idle (some 6)
              ∷ [];
          count = 4;
        })
        (accepted 6 ∷ sent 4 (104 ∷ 105 ∷ []) ∷ closed 5 ∷ [])
unfolding pass accept_one serve_clients serve_all serve_fd answer set_revents
one_pass = refl

-- A line, the end of standard input, the answer, and the end of the connection.
abbrev conversation : List Input
conversation =
    record {
      ready = some (true, false);
      line = some (104 ∷ 105 ∷ 10 ∷ []);
      sent = true;
      got = peer_closed;
    }
    ∷ record { ready = some (true, true); line = none; sent = true; got = peer_closed }
    ∷ record {
      ready = some (false, true);
      line = none;
      sent = true;
      got = received (104 ∷ 105 ∷ 10 ∷ []);
    }
    ∷ record { ready = none; line = none; sent = true; got = peer_closed }
    ∷ []

loop-Quiet_example : Quiet (state (loop (continues (new_client false)) conversation)).log
loop-Quiet_example = loop-Quiet false conversation

-- Two devices, of which the second one has no address.
abbrev eth : List ℕ
eth = 101 ∷ 116 ∷ 104 ∷ 48 ∷ []

abbrev lo : List ℕ
lo = 108 ∷ 111 ∷ []

abbrev local_ip : List ℕ → ℕ
local_ip =
    get_local_ip (some 3) (some (record { name = eth; listed = 0; looked_up = some 77 } ∷ []))

read_devices-doc_example :
    (b : ℕ) × (read_devices local_ip
        (record { dev_name = []; buf = 0; clients = [] })
        (map some (doc (eth ∷ lo ∷ []) ++ lo))
      ≡ record { dev_name = lo; buf = b; clients = nonzero (map local_ip (eth ∷ lo ∷ [])) })
read_devices-doc_example =
    read_devices-doc local_ip (eth ∷ lo ∷ []) lo 0 (eth_line, (lo_line, tt)) lo_line
  where
    lo_line : IsLine lo
    lo_line = ((λ e. absurd (omega (arith, e))), ((λ e. absurd (omega (arith, e))), tt))

    eth_line : IsLine eth
    eth_line = (
      (λ e. absurd (omega (arith, e))),
      (
        (λ e. absurd (omega (arith, e))),
        ((λ e. absurd (omega (arith, e))), ((λ e. absurd (omega (arith, e))), tt)),
      ),
    )

one_client : nonzero (map local_ip (eth ∷ lo ∷ [])) ≡ 77 ∷ []
unfolding get_local_ip find_ip
one_client = refl
