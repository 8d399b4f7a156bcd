-- ===== src/Handshake/Prog.antt =====
-- The calls that the threads make, and functions as trees of them.
use ex_netlink.Base.{ℕ, Option, none, some, Bool}

-- An address: `INADDR_ANY`, or `inet_addr` of four numbers.
pub data Host : Type 0 where
  inaddr_any : Host
  inet_addr : ℕ → ℕ → ℕ → ℕ → Host

pub data SockOpt : Type 0 where
  so_reuseaddr so_reuseport tcp_nodelay : SockOpt

-- A descriptor, `none` for -1.
abbrev pub Fd : Type 0
Fd = Option ℕ

-- A system or library call with its arguments.
pub data Sys : Type 0 where
  socket : Sys
  setsockopt : Fd → SockOpt → Sys
  bind connect : Fd → Host → ℕ → Sys
  listen : Fd → ℕ → Sys
  accept close getsockname getpeername setown : Fd → Sys
  recv send : Fd → ℕ → Bool → Sys
  read write : Fd → ℕ → Sys
  sigaction printf block_sigpipe : Sys

-- A call at a line, an operation on the `m`-th mutex, its condition variable or its flag, or the
-- start or join of the `m`-th thread.
pub data Call : Type 0 where
  sys : ℕ → Sys → Call
  lock unlock wait store notify_one notify_all start join : ℕ → Call

-- A function's calls from here on. What follows a call may depend on its answer, `none` for an error.
pub data Prog : Type 0 where
  done abort : Prog
  call : Call → (Option ℕ → Prog) → Prog

-- A statement, by what it does before the rest of its function.
abbrev pub Act : Type 0
Act = (Option ℕ → Prog) → Prog

infixl 5 ◌>>=◌ ◌>>◌
abbrev pub ◌>>=◌ : Act → (Option ℕ → Prog) → Prog
◌>>=◌ m k = m k

abbrev pub ◌>>◌ : Act → Prog → Prog
◌>>◌ m p = m (λ _. p)

-- A call at a line of the source.
abbrev pub at : ℕ → Sys → Act
at line s = call (sys line s)

abbrev pub does : Call → Act
does c = call c

-- `if` an answer is an error, the `printf` at a line.
abbrev pub reports : Option ℕ → ℕ → Act
reports none line k = call (sys line printf) k
reports (some a) line k = k none

-- `assert(addr.sin_family == AF_INET)`: the address is zero where the call that fills it failed.
abbrev pub asserts : Option ℕ → Act
asserts none k = abort
asserts (some a) k = k none
