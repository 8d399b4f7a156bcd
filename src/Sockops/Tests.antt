-- ===== src/Sockops/Tests.antt =====
-- Runs of `connectAsync`, `setSocketNotBlock` and the constructor of `NetServerDB`.
use ex_netlink.Base.{◌≡◌, none, some, [], ◌∷◌, ◌++◌, true, false}
use ex_netlink.Sockops.{eagain, einprogress, other, Flags, Waited, Outcome, connect_async}
use ex_netlink.Sockops.Connect.{repeat, ClosedOnError, connect_async-ClosedOnError}

abbrev ready : Waited
ready = record { one_ready = true; isset = true; getsockopt = none; so_error = some (other 111) }

connect_async-ClosedOnError_example :
    (o : Outcome) × (connect_async (repeat 2 (some eagain) ++ (some einprogress ∷ [])) ready none
      ≡ some o)
    × ClosedOnError o
connect_async-ClosedOnError_example =
    connect_async-ClosedOnError 2 (some einprogress) [] ready none (λ h. cc)

abbrev blocking : Flags
blocking = record { nonblock = false; others = 2 }
