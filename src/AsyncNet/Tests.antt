-- ===== src/AsyncNet/Tests.antt =====
-- A connection that is under way.
use ex_netlink.Base.{◌≡◌, refl, none, some, [], ◌∷◌, Bool, true, false}
use ex_netlink.Sockops.{Flags}
use ex_netlink.AsyncNet.{
  other, async_net, async_socket, async_connect, async_continue, finish, fcntl_enable,
}

abbrev blocking : Flags
blocking = record { nonblock = false; others = 2 }

abbrev succeeds : Flags → Bool
succeeds f = true

refused : async_net (some 5) (some blocking) succeeds (some (other 111)) ≡ (none, 5 ∷ [])
unfolding async_net async_socket async_connect async_continue finish fcntl_enable
refused = refl
