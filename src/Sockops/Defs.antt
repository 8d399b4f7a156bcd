-- ===== src/Sockops/Defs.antt =====
-- set/rtt/Sockops.h: setSocketNotBlock, connectAsync, createSocket, hold_error_condition, NetServerDB.
use ex_netlink.Base.{
  ℕ, Option, none, some, List, [], ◌∷◌, Bool, true, not, ◌||◌, ◌==◌, ltb, if◌then◌else◌, ◌>>=◌,
}

pub data Errno : Type 0 where
  eagain einprogress etimedout : Errno
  other : ℕ → Errno

-- The flags of a descriptor: the bit O_NONBLOCK, and the others.
pub record Flags : Type 0 where
  pub nonblock : Bool
  pub others : ℕ

-- `flag | O_NONBLOCK`, and a number as a condition.
abbrev pub or_nonblock : Flags → Flags
or_nonblock f = record f { nonblock = true }

abbrev pub nonzero : Flags → Bool
nonzero f = f.nonblock || not (f.others == 0)

-- What F_GETFL returns.
pub data Got : Type 0 where
  got : Flags → Got
  got_error : Errno → Got

-- `setSocketNotBlock`: the condition, and the flags that F_SETFL is called with, if it is.
unfoldable pub set_socket_not_block : Got → Option Errno → Option Errno × Option Flags
set_socket_not_block (got_error e) setfl = (some e, none)
set_socket_not_block (got flag) setfl =
    if nonzero (or_nonblock flag) then (none, none) else (setfl, some (or_nonblock flag))

-- `createSocket`: socket(2) returned this descriptor, or failed; `errno` is the last argument.
unfoldable pub create_socket : Option ℕ → Errno → Option Errno
create_socket (some fd) errno = if ltb 0 fd then none else some errno
create_socket none errno = some errno

-- The loop of `connectAsync` over the results of connect(2): it connects, it is under way, it fails.
-- `none`: it has not left the loop after these results.
pub data Attempt : Type 0 where
  connected under_way : Attempt
  refused : Errno → Attempt

unfoldable pub attempts : List (Option Errno) → Option Attempt
attempts [] = none
attempts (none ∷ rs) = some connected
attempts (some eagain ∷ rs) = attempts rs
attempts (some einprogress ∷ rs) = some under_way
attempts (some etimedout ∷ rs) = some (refused etimedout)
attempts (some (other n) ∷ rs) = some (refused (other n))

-- select(2) with the descriptor in its write set, and getsockopt(2) of SO_ERROR: a failure, or the
-- error that it reads.
pub record Waited : Type 0 where
  pub one_ready : Bool
  pub isset : Bool
  pub getsockopt : Option Errno
  pub so_error : Option Errno

-- The condition, and how often the descriptor is closed. A close(2) that fails sets `errno`.
pub record Outcome : Type 0 where
  pub condition : Option Errno
  pub closes : ℕ

abbrev pub set_errno : Errno → Option Errno → Errno
set_errno errno none = errno
set_errno errno (some e) = e

abbrev pub fails_closed : Errno → Option Errno → Outcome
fails_closed errno closed = record { condition = some (set_errno errno closed); closes = 1 }

-- What getsockopt(2) decides, and the part behind the loop. `errno` is what the calls before have
-- left in it.
unfoldable pub check_error : Errno → Option Errno → Option Errno → Option Errno → Outcome
check_error errno (some e) so_error closed = fails_closed e closed
check_error errno none (some error) closed = fails_closed errno closed
check_error errno none none closed = record { condition = none; closes = 0 }

unfoldable pub await : Errno → Waited → Option Errno → Outcome
await errno w closed =
    if w.one_ready
    then (if w.isset
        then check_error errno w.getsockopt w.so_error closed
        else fails_closed errno closed)
    else record { condition = some etimedout; closes = 1 }

unfoldable pub settle : Attempt → Waited → Option Errno → Outcome
settle connected w closed = record { condition = none; closes = 0 }
settle under_way w closed = await einprogress w closed
settle (refused e) w closed = fails_closed e closed

-- `connectAsync`, after its call of `setSocketNotBlock`, whose result it drops.
unfoldable pub connect_async : List (Option Errno) → Waited → Option Errno → Option Outcome
connect_async results w closed = attempts results >>= λ a. some (settle a w closed)

-- The constructor of `NetServerDB`: the addresses it keeps of those that gethostbyname(3) found, the
-- first of which is `first`. It copies `h_addr_list[0]` in each round.
unfoldable pub addrs_from : ℕ → List ℕ → ℕ → List (ℕ × ℕ)
addrs_from first [] port = []
addrs_from first (a ∷ rest) port = (first, port) ∷ addrs_from first rest port

unfoldable pub net_server_db : Option (List ℕ) → ℕ → List (ℕ × ℕ)
net_server_db none port = []
net_server_db (some []) port = []
net_server_db (some (a ∷ rest)) port = addrs_from a (a ∷ rest) port
