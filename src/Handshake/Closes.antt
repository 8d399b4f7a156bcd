-- ===== src/Handshake/Closes.antt =====
-- In the two programs of set/tcp_rest, the client writes again only after the server has closed a
-- connection.
use ex_netlink.Base.{ℕ, Option, Bool, false, ◌==◌, ◌||◌}
use ex_netlink.Handshake.Prog.{Sys, close, write, Prog, reports}
use ex_netlink.Handshake.Order.{Careful}
use ex_netlink.Handshake.Rules.{reports-Careful}
use ex_netlink.Handshake.Rest2
use ex_netlink.Handshake.Rest3

-- The calls of `close` in the servers' loops, and the clients' later calls of `write`.
abbrev pub server_closes : ℕ → Sys → Bool
server_closes line (close fd) = line == 106 || line == 121
server_closes line s = false

abbrev pub writes_again : ℕ → Sys → Bool
writes_again line (write fd n) = line == 59 || line == 60 || line == 67
writes_again line s = false

abbrev Meets : Prog → Type 0
Meets = Careful server_closes writes_again 1 false

abbrev passes :
    (a : Option ℕ) (line : ℕ) (k : Option ℕ → Prog)
    → ((b : Option ℕ) → Meets (k b))
    → Meets (reports a line k)
passes a line k h = reports-Careful server_closes writes_again 1 false a line k (λ t. t) h
