-- ===== src/Programs/Unix.antt =====
-- set/abstractunix/service.cpp and client.cpp: a server that accepts connections on an abstract name,
-- and its client.
use ex_netlink.Base.{
  ℕ, zero, suc, none, List, [], ◌∷◌, ◌++◌, take, drop, length, ◌+◌, ◌≡◌, ap, ◌∙◌, take-append_le,
  take_all, arith,
}
use ex_netlink.Buffer.{zeros}
use ex_netlink.Sockops.Calls.{Result, returned, failed}
use ex_netlink.Programs.Sys.{
  stream, Address, unix, Fd, socket, bind, connect, listen, accept, send, report, print, sleep,
  Prog, pauses, call, fd_of, ◌>>=◌, ◌>>◌, or_exit,
}

-- The bytes of "uds-tmp" and "uds-tmp1".
abbrev pub filename : List ℕ
filename = b'u' ∷ b'd' ∷ b's' ∷ b'-' ∷ b't' ∷ b'm' ∷ b'p' ∷ []

abbrev pub filename1 : List ℕ
filename1 = filename ++ (b'1' ∷ [])

-- `sun_path` behind the zero byte and the strcpy(3), over what the memory held.
unfoldable pub sun_path : List ℕ → List ℕ → List ℕ
sun_path memory name = 0 ∷ name ++ (0 ∷ drop (length name + 2) memory)

-- What the kernel is handed: as many bytes of `sun_path` as `size` counts.
unfoldable pub address : List ℕ → List ℕ → Address
address memory name = unix (take (length name + 1) (sun_path memory name))

-- Only a descriptor other than 0 is reported; a failure goes back to accept(2), whatever errno is.
unfoldable pub accepted : Result → Prog → Prog
accepted (failed e) p = p
accepted (returned zero) p = p
accepted (returned (suc n)) p = call report (λ r. p)

-- `n` passes of `while (1)`.
unfoldable pub serve : ℕ → Fd → Prog
serve zero fd = pauses
serve (suc n) fd = call (accept fd) (λ r. accepted r (serve n fd))

-- The server, whose address is cleared before it is filled in.
unfoldable pub serve_on : ℕ → Fd → Prog
serve_on n fd = do
  b ← call (bind fd (address (zeros 108) filename))
  or_exit b none (call (listen fd 10) (λ l. or_exit l none (serve n fd)))

unfoldable pub service : ℕ → Prog
service n = do fd ← call (socket stream); or_exit fd none (serve_on n (fd_of fd))

-- `n` passes of the client's `while (1)`; what send(2) returns is not looked at.
unfoldable pub send_all : ℕ → Fd → Prog
send_all zero fd = pauses
send_all (suc n) fd = do call (send fd 1024); call print; call sleep; send_all n fd

-- The client, which binds a name of its own first. The address of the server is not cleared.
unfoldable pub send_on : List ℕ → ℕ → Fd → Prog
send_on memory n fd = do
  b ← call (bind fd (address (zeros 108) filename1))
  or_exit b none (call (connect fd (address memory filename)) (λ c. or_exit c none (send_all n fd)))

unfoldable pub client : List ℕ → ℕ → Prog
client memory n = do fd ← call (socket stream); or_exit fd none (send_on memory n (fd_of fd))

-- The address does not depend on what the memory held: it is the zero byte and the name.
address_lem : (memory name : List ℕ) → address memory name ≡ unix (0 ∷ name)
unfolding address sun_path
address_lem memory name =
    let size : length name + 1 ≡ suc (length name) = omega arith in
    rw size (
      ap (λ t. unix (0 ∷ t))
        (take-append_le (length name) name (0 ∷ drop (length name + 2) memory) (omega arith)
          ∙ take_all (length name) name (omega arith)))
