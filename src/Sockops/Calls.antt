-- ===== src/Sockops/Calls.antt =====
-- set/rtt/Sockops.h: the functions that make one system call, the names of protocols, and what turns a
-- condition or a host into output.
use ex_netlink.Base.{ℕ, Option, none, some, List, [], ◌∷◌, Bool, true, false, ◌==◌, if◌then◌else◌}
use ex_netlink.Sockops.Defs.{Errno}

-- What a system call returns: a number, or -1 with errno set.
pub data Result : Type 0 where
  returned : ℕ → Result
  failed : Errno → Result

-- `{errno, std::system_category()}` if the result is negative: setSocketNotDelay, setAddressReuse,
-- connect and listen.
unfoldable pub negative : Result → Option Errno
negative (returned n) = none
negative (failed e) = some e

unfoldable pub set_socket_not_delay : Result → Option Errno
set_socket_not_delay setsockopt = negative setsockopt

unfoldable pub set_address_reuse : Result → Option Errno
set_address_reuse setsockopt = negative setsockopt

unfoldable pub connect : Result → Option Errno
connect r = negative r

unfoldable pub listen : Result → Option Errno
listen r = negative r

-- `accept` hands the descriptor out too, also the -1, which is `none`.
unfoldable pub accept : Result → Option Errno × Option ℕ
accept (returned fd) = (none, some fd)
accept (failed e) = (some e, none)

-- `shutdown` and `close` compare with 0; `errno` is what was there before.
unfoldable pub not_zero : Result → Errno → Option Errno
not_zero (returned n) errno = if n == 0 then none else some errno
not_zero (failed e) errno = some e

pub data ShutType : Type 0 where
  wr rdwr : ShutType

unfoldable pub shutdown : ShutType → (ShutType → Result) → Errno → Option Errno
shutdown type call errno = not_zero (call type) errno

unfoldable pub close : Result → Errno → Option Errno
close r errno = not_zero r errno

-- `hold_error_condition`: the message handed to the output function, if there is one.
unfoldable pub hold_error_condition : (Errno → List ℕ) → Bool → Option Errno → Option (List ℕ)
hold_error_condition message has_out none = none
hold_error_condition message has_out (some e) = if has_out then some (message e) else none

pub data Portocol : Type 0 where
  tcp udp : Portocol

pub data Name : Type 0 where
  name_tcp name_udp name_ipv4 name_ipv6 : Name

unfoldable pub cover2_protocol : Portocol → Name
cover2_protocol tcp = name_tcp
cover2_protocol udp = name_udp

-- It takes a protocol, and not a version of one.
unfoldable pub cover2_protocol_version : Portocol → Name
cover2_protocol_version tcp = name_ipv4
cover2_protocol_version udp = name_ipv6

-- What gethostbyname(3) finds: whether its addresses are of AF_INET and four bytes long, and they.
pub record Host : Type 0 where
  pub inet : Bool
  pub h_addr_list : List ℕ

-- The members of the address that `constructor_echo_addr` sets.
pub record Addr : Type 0 where
  pub sin_port : ℕ
  pub sin_addr : ℕ

unfoldable pub first_address : List ℕ → Addr → Bool × Addr
first_address [] addr = (false, addr)
first_address (a ∷ rest) addr = (true, record addr { sin_addr = a })

-- The part of `constructor_echo_addr` behind the port.
unfoldable pub set_host : Option Host → Addr → Bool × Addr
set_host none addr = (false, addr)
set_host (some host) addr = if host.inet then first_address host.h_addr_list addr else (true, addr)

-- `constructor_echo_addr`: the port of the service "echo", if it is found, then the host.
unfoldable pub constructor_echo_addr : Option ℕ → Option Host → Addr → Bool × Addr
constructor_echo_addr none host addr = (false, addr)
constructor_echo_addr (some port) host addr = set_host host (record addr { sin_port = port })
