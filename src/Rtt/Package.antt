-- ===== src/Rtt/Package.antt =====
-- set/rtt/rtt_common.h, the package of the protocol; set/rtt/rtt_client.cpp, what the client sends
-- and computes; set/rtt/rtt_server.cpp, how `startDomain` reads a package and answers it.
--
-- The clock readings are arguments. A package is handled here once its bytes have been read; the
-- sockets and the poll loop are not part of this file.
use ex_netlink.Base.{
  ℕ, ◌+◌, ◌*◌, ◌/◌, ◌%◌, ◌^◌, Option, none, some, List, ◌++◌, ltb, if◌then◌else◌, ◌>>=◌, sub64,
  slice, min, max,
}
use ex_netlink.Bytes.{le_bytes, le_value, network2host, host2network}
use ex_netlink.Buffer.{Buffer, circulation_buffer, append, readed_size, peek, skip}

-- `struct rtt_package`; a value of it in memory is the bytes of its three fields.
pub record RttPackage : Type 0 where
  pub c_send_ts : ℕ
  pub s_recv_ts : ℕ
  pub s_send_ts : ℕ

abbrev pub sizeof_rtt_package : ℕ
sizeof_rtt_package = 24

abbrev pub package_bytes : RttPackage → List ℕ
package_bytes p = le_bytes 8 p.c_send_ts ++ (le_bytes 8 p.s_recv_ts ++ le_bytes 8 p.s_send_ts)

-- `reinterpret_cast` of received bytes to a package.
unfoldable pub package_of : List ℕ → RttPackage
package_of bytes = record {
  c_send_ts = le_value (slice bytes 0 8);
  s_recv_ts = le_value (slice bytes 8 8);
  s_send_ts = le_value (slice bytes 16 8);
}

-- `timeval2ui64`
unfoldable pub timeval2ui64 : ℕ → ℕ → ℕ
timeval2ui64 tv_sec tv_usec = (tv_sec * 1_000_000 + tv_usec) % 2 ^ 64

-- The client's request: its own time in network order, and two zero fields.
unfoldable pub request : ℕ → RttPackage
request now = record { c_send_ts = host2network 8 now; s_recv_ts = 0; s_send_ts = 0 }

-- Each field from network order, as the client converts the answer.
unfoldable pub received : RttPackage → RttPackage
received p = record {
  c_send_ts = network2host 8 p.c_send_ts;
  s_recv_ts = network2host 8 p.s_recv_ts;
  s_send_ts = network2host 8 p.s_send_ts;
}

-- The pair that `RttClient::Connect` returns, in uint64_t arithmetic.
unfoldable pub result : RttPackage → ℕ → ℕ × ℕ
result p recv_time =
    let a = sub64 recv_time p.s_send_ts in
    let b = sub64 p.s_recv_ts p.c_send_ts in
    (
      sub64 (sub64 recv_time p.c_send_ts) (sub64 p.s_send_ts p.s_recv_ts),
      sub64 (max a b) (min a b) / 2,
    )

-- The server's reading of a package from its buffer, field by field.
unfoldable pub read_package : Buffer → Option (RttPackage × Buffer)
read_package b₀ = do
  c ← peek 8 b₀
  b₁ ← skip b₀ 8
  r ← peek 8 b₁
  b₂ ← skip b₁ 8
  s ← peek 8 b₂
  b₃ ← skip b₂ 8
  some (record { c_send_ts = c; s_recv_ts = r; s_send_ts = s }, b₃)

-- The server's answer to a package, at the two times that it reads from its clock.
unfoldable pub answer : RttPackage → ℕ → ℕ → RttPackage
answer p recv_time send_time = record {
  c_send_ts = host2network 8 p.c_send_ts;
  s_recv_ts = host2network 8 recv_time;
  s_send_ts = host2network 8 send_time;
}

-- What the server does with the bytes that one `read` returned: buffer them, and answer if a whole
-- package is there. `none` inside: it waits for more.
unfoldable pub serve : (ℕ → List ℕ) → Buffer → List ℕ → ℕ → ℕ → Option (Buffer × Option RttPackage)
serve fresh rbuffer bytes recv_time send_time = do
  b ← append fresh rbuffer bytes
  if ltb (readed_size b) sizeof_rtt_package
      then some (b, none)
      else read_package b >>= λ r. some (r.1, some (answer r.0 recv_time send_time))

-- `Translation::rbuffer`
unfoldable pub rbuffer : Buffer
rbuffer = circulation_buffer (3 * sizeof_rtt_package)

-- One whole exchange over a connection that delivers each package at once: the client sends at `t₀`,
-- the server reads its clock at `t₁` and `t₂`, and the client at `t₃` when the answer has come.
unfoldable pub exchange : (ℕ → List ℕ) → ℕ → ℕ → ℕ → ℕ → Option (ℕ × ℕ)
exchange fresh t₀ t₁ t₂ t₃ = do
  r ← serve fresh rbuffer (package_bytes (request t₀)) t₁ t₂
  reply ← r.1
  some (result (received (package_of (package_bytes reply))) t₃)
