-- ===== src/Echo/Client.antt =====
-- set/echo/echo.client.cpp and set/echo/echo.common.h: the echo client over select(2).
--
-- One pass of its loop is a function of its state and of the results of its system calls. The
-- descriptors other than the two that the client puts into `set` are left out, though `set` is not
-- cleared before its first use.
use ex_netlink.Base.{
  ℕ, Option, none, some, List, [], ◌∷◌, Bool, true, false, ◌&&◌, ◌==◌, ltb, if◌then◌else◌, length,
}

-- The bytes of a C string before its end.
abbrev pub c_string : List ℕ → List ℕ
c_string [] = []
c_string (b ∷ bytes) = let rest = c_string bytes in if b == 0 then [] else b ∷ rest

abbrev pub has_zero : List ℕ → Bool
has_zero [] = false
has_zero (b ∷ bytes) = let rest = has_zero bytes in if b == 0 then true else rest

-- What gethostbyname(3) gives: whether the addresses are four bytes of IPv4, and the addresses.
pub record HostEntry : Type 0 where
  pub is_inet : Bool
  pub addresses : List ℕ

pub record EchoAddr : Type 0 where
  pub port : ℕ
  pub ip : ℕ

-- On an address zeroed before; `none` for a result of false.
unfoldable pub first_address : ℕ → HostEntry → List ℕ → Option EchoAddr
first_address port host [] = if host.is_inet then none else some (record { port = port; ip = 0 })
first_address port host (a ∷ rest) =
    some (record { port = port; ip = if host.is_inet then a else 0 })

unfoldable pub constructor_echo_addr : Option ℕ → Option HostEntry → Option EchoAddr
constructor_echo_addr none host = none
constructor_echo_addr (some port) none = none
constructor_echo_addr (some port) (some host) = first_address port host host.addresses

-- The client comes to its loop with a connected socket, or has exited with -1.
unfoldable pub connect_client : Option ℕ → Bool → Option EchoAddr → Bool → Option ℕ
connect_client none bound addr connected = none
connect_client (some sock_fd) false addr connected = none
connect_client (some sock_fd) true none connected = none
connect_client (some sock_fd) true (some addr) false = none
connect_client (some sock_fd) true (some addr) true = some sock_fd

pub data Act : Type 0 where
  shuts_down closes reports : Act
  writes prints : List ℕ → Act

-- Standard input and the socket in `set`, `stand_id_flag`, and what the client has done, newest first.
pub record Client : Type 0 where
  pub stand_id_flag : Bool
  pub stdin_set : Bool
  pub sock_set : Bool
  pub log : List Act

pub data Got : Type 0 where
  received : List ℕ → Got
  peer_closed read_failed : Got

-- Another pass, the jump to `reconnect`, an exit with 0 or with -1, or a read past `read_buf`.
pub data Outcome : Type 0 where
  continues reconnects exits_well exits_badly faults : Client → Outcome

unfoldable pub new_client : Bool → Client
new_client garbage = record {
  stand_id_flag = false;
  stdin_set = garbage;
  sock_set = false;
  log = [];
}

-- The part of a pass that reads from the socket; `fputs` of a full buffer finds no end.
unfoldable pub print_received : Client → List ℕ → Outcome
print_received c buf =
    if ltb (length buf) 1024
    then continues (record c { log = prints (c_string buf) ∷ c.log })
    else if has_zero buf
    then continues (record c { log = prints (c_string buf) ∷ c.log })
    else faults c

unfoldable pub read_socket : Client → Got → Outcome
read_socket c peer_closed = exits_well (record c { log = reports ∷ closes ∷ c.log })
read_socket c read_failed = exits_badly (record c { log = reports ∷ c.log })
read_socket c (received buf) = print_received c buf

unfoldable pub serve_socket : Client → Got → Outcome
serve_socket c got = if c.sock_set then read_socket c got else continues c

abbrev pub starts_with_q : List ℕ → Bool
starts_with_q [] = false
starts_with_q (b ∷ bytes) = b == 113

-- The part of a pass that reads a line from standard input, `none` at its end.
unfoldable pub read_stdin : Client → Option (List ℕ) → Bool → Got → Outcome
read_stdin c none sent got =
    continues (record c { stand_id_flag = true; stdin_set = false; log = shuts_down ∷ c.log })
read_stdin c (some line) sent got =
    if starts_with_q line
    then reconnects (record c { log = reports ∷ closes ∷ c.log })
    else if sent
    then serve_socket (record c { log = writes (c_string line) ∷ c.log }) got
    else serve_socket (record c { log = reports ∷ writes (c_string line) ∷ c.log }) got

-- `FD_SET` before select(2).
unfoldable pub fd_set : Client → Client
fd_set c = record c { stdin_set = if c.stand_id_flag then c.stdin_set else true; sock_set = true }

-- select(2) leaves of `set` what is ready, or all of it if it fails.
unfoldable pub select : Client → Option (Bool × Bool) → Client
select c none = c
select c (some (stdin_ready, sock_ready)) = record c {
  stdin_set = c.stdin_set && stdin_ready;
  sock_set = c.sock_set && sock_ready;
}

pub record Input : Type 0 where
  pub ready : Option (Bool × Bool)
  pub line : Option (List ℕ)
  pub sent : Bool
  pub got : Got

unfoldable pub serve : Client → Input → Outcome
serve c i = if c.stdin_set then read_stdin c i.line i.sent i.got else serve_socket c i.got

unfoldable pub pass : Client → Input → Outcome
pass c i = serve (select (fd_set c) i.ready) i

-- The loop `for (;;)`, over the results of its calls.
unfoldable pub loop : Outcome → List Input → Outcome
loop o [] = o
loop (continues c) (i ∷ is) = loop (pass c i) is
loop (reconnects c) (i ∷ is) = reconnects c
loop (exits_well c) (i ∷ is) = exits_well c
loop (exits_badly c) (i ∷ is) = exits_badly c
loop (faults c) (i ∷ is) = faults c
