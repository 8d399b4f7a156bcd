-- ===== src/AsyncNet/Open.antt =====
-- Which descriptors `async_net` leaves open.
use ex_netlink.Base.{ℕ, ◌≡◌, ◌⊎◌, Option, none, some, List, [], ◌∷◌, Bool, true, false}
use ex_netlink.Sockops.{Flags, or_nonblock}
use ex_netlink.AsyncNet.Defs.{Errno, fcntl_enable, async_connect}

-- What `async_net` does with the descriptor that socket(2) has returned: it returns it, or it returns
-- an error and closes it once.
pub data Handled (sockfd : ℕ) (getfl : Option Flags) (setfl : Flags → Bool) (connect : Option Errno)
    : Option ℕ × List ℕ → Type 0 where
  kept :
      {flags : Flags}
      → getfl ≡ some flags
      → setfl (or_nonblock flags) ≡ true
      → async_connect connect ≡ true
      → Handled sockfd getfl setfl connect (some sockfd, [])
  dropped :
      (fcntl_enable getfl setfl ≡ false) ⊎ (async_connect connect ≡ false)
      → Handled sockfd getfl setfl connect (none, sockfd ∷ [])
