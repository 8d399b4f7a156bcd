-- ===== src/Rtt/Accept.antt =====
-- set/rtt/Accept.h: `build`, which starts to listen, and `create`, which accepts a connection.
use ex_netlink.Base.{ℕ, Option, none, some, List, [], ◌∷◌, Bool, true, false}
use ex_netlink.Sockops.{Errno}
use ex_netlink.Sockops.Calls.{Result, returned, failed}

-- What `build` does to the socket, in order; the condition that `listen` returns is dropped.
pub data Act : Type 0 where
  listens registers disables_read : Act

unfoldable pub bind_address : Result → Option Errno × List Act
bind_address (failed e) = (some e, [])
bind_address (returned n) = (none, listens ∷ registers ∷ disables_read ∷ [])

-- `build`, by the results of inet_net_pton(3) and bind(2).
unfoldable pub build : Result → Result → Option Errno × List Act
build (failed e) bind = (some e, [])
build (returned n) bind = bind_address bind

-- The connector that `create` returns, and the one that it hands to `on_new_connect_`, if that is set.
unfoldable pub hand_out : Bool → ℕ → Option ℕ × Option ℕ
hand_out false fd = (some fd, none)
hand_out true fd = (some fd, some fd)

unfoldable pub create : Result → Bool → Option ℕ × Option ℕ
create (failed e) has_callback = (none, none)
create (returned fd) has_callback = hand_out has_callback fd
