-- ===== src/Rtt/Tests.antt =====
-- Runs of the round-trip-time service and of its reactor.
use ex_netlink.Base.{ℕ, ◌+◌, ◌-◌, ◌%◌, ◌^◌, ◌≡◌, refl, some, true, arith}
use ex_netlink.Bytes.{network2host, host2network, network2host-host2network}
use ex_netlink.Buffer.{zeros}
use ex_netlink.Rtt.Socket.{Socket, new_socket, normal, set_switch, read_switch, responsable}
use ex_netlink.Rtt.Package.{RttPackage, exchange}
use ex_netlink.Rtt.Exchange.{IsStamps, exchange-rtt, exchange-offset, symmetric}
use ex_netlink.Rtt.Poll.{Poll, PollFd, no_events, new_poll, contains, register, find, serves}

network2host-host2network_example :
    (network2host 2 (host2network 2 258) ≡ 258) × (host2network 2 (network2host 2 258) ≡ 258)
network2host-host2network_example = network2host-host2network 2 258 (omega arith)

exchange-rtt_example :
    (offset : ℕ) × (exchange zeros 1000
        ((1000 + 20 + 50) % 2 ^ 64)
        ((1000 + 20 + 5 + 50) % 2 ^ 64)
        (1000 + 20 + 5 + 30)
      ≡ some (20 + 30, offset))
exchange-rtt_example = exchange-rtt zeros 1000 20 5 30 50 (omega arith) (omega arith)

exchange-offset_example : symmetric zeros 1000 20 5 15 (omega arith) ≡ some (20 + 20, 15)
exchange-offset_example = exchange-offset zeros 1000 20 5 15 (omega arith) (omega arith)

abbrev stamps : RttPackage
stamps = record { c_send_ts = 1000; s_recv_ts = 0; s_send_ts = 0 }

stamps-IsStamps : IsStamps stamps
stamps-IsStamps = record {
  c_send_in = omega arith;
  s_recv_in = omega arith;
  s_send_in = omega arith;
}

abbrev sock : ℕ → Socket
sock f = set_switch read_switch true (new_socket (some f) normal (some (100 + f)))

-- A reactor with the descriptors 5 and 6, as `register` leaves it.
abbrev two : Poll
two = register (register new_poll (sock 5) 105) (sock 6) 106

five_in_two : contains (sock 5).id two.fdtbs ≡ true
unfolding register contains new_poll new_socket set_switch
five_in_two = refl

abbrev heap : ℕ → Socket
heap address = sock (address - 100)

abbrev entry : ℕ → PollFd
entry f = record { fd = some f; events = no_events; revents = no_events }

five_served : serves two.fdtbs heap (some 5) ≡ some 105
unfolding serves find register contains new_poll new_socket set_switch responsable
five_served = refl
