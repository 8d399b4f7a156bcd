-- ===== src/AsyncNet/Defs.antt =====
-- set/poll/main.cpp: fcntl_enable, async_socket, async_connect and async_net.
use ex_netlink.Base.{ℕ, Option, none, some, List, [], ◌∷◌, Bool, true, false, if◌then◌else◌}
use ex_netlink.Sockops.{Flags, or_nonblock}

pub data Errno : Type 0 where
  eagain eintr einprogress : Errno
  other : ℕ → Errno

-- The macro ASYNC_CONTINUE.
unfoldable pub async_continue : Errno → Bool
async_continue eagain = true
async_continue eintr = true
async_continue einprogress = true
async_continue (other n) = false

-- `fcntl_enable` with O_NONBLOCK: what F_GETFL returns, and whether F_SETFL succeeds with the flags.
unfoldable pub fcntl_enable : Option Flags → (Flags → Bool) → Bool
fcntl_enable none setfl = false
fcntl_enable (some flags) setfl = setfl (or_nonblock flags)

-- The result, and the descriptors closed.
unfoldable pub async_socket : Option ℕ → Option Flags → (Flags → Bool) → Option ℕ × List ℕ
async_socket none getfl setfl = (none, [])
async_socket (some sockfd) getfl setfl =
    if fcntl_enable getfl setfl then (some sockfd, []) else (none, sockfd ∷ [])

-- `async_connect`, by what connect(2) sets errno to if it fails.
unfoldable pub async_connect : Option Errno → Bool
async_connect none = true
async_connect (some e) = async_continue e

unfoldable pub finish : Bool → Option ℕ × List ℕ → Option ℕ × List ℕ
finish connects (none, closed) = (none, closed)
finish connects (some sockfd, closed) =
    if connects then (some sockfd, closed) else (none, sockfd ∷ closed)

unfoldable pub async_net :
    Option ℕ → Option Flags → (Flags → Bool) → Option Errno → Option ℕ × List ℕ
async_net socket getfl setfl connect =
    finish (async_connect connect) (async_socket socket getfl setfl)
