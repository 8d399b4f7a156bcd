-- ===== src/UnixSocket/Parent.antt =====
-- set/unixsocket/main.cpp: `parent_process` and `send_fd`.
use ex_netlink.Base.{
  ℕ, Option, none, some, List, [], ◌∷◌, ◌++◌, Bool, true, false, if◌then◌else◌, ◌>>=◌,
}

-- `async_fd`, whether `pollfds[1].events` has POLLOUT, and a log of the descriptors sent.
pub record Parent : Type 0 where
  pub async_fd : Option ℕ
  pub wants_out : Bool
  pub log : List ℕ

unfoldable pub new_parent : Parent
new_parent = record { async_fd = none; wants_out = false; log = [] }

-- `send_fd`, by what sendmsg(2) returns: it sent the one byte, or it did not.
unfoldable pub send_fd : Bool → ℕ → Parent → Option Parent
send_fd true f s = some (record s { log = s.log ++ (f ∷ []) })
send_fd false f s = none

unfoldable pub accept_async : Bool → Option ℕ → Parent → Parent
accept_async false connected s = s
accept_async true connected s = record s { async_fd = connected; wants_out = true }

unfoldable pub hand_over : Bool → Option ℕ → Parent → Option Parent
hand_over sendmsg none s = some (record s { async_fd = none })
hand_over sendmsg (some f) s =
    send_fd sendmsg f s >>= λ (t : Parent). some (record t { wants_out = false; async_fd = none })

-- What poll(2) and the calls behind it give in one pass.
pub record Input : Type 0 where
  pub answered : Bool
  pub listening : Bool
  pub connected : Option ℕ
  pub writable : Bool
  pub sendmsg : Bool

unfoldable pub parent_pass : Input → Parent → Option Parent
parent_pass i s =
    if i.answered
    then (let t = accept_async i.listening i.connected s in
        if i.writable then hand_over i.sendmsg t.async_fd t else some t)
    else some s

unfoldable pub parent_process : List Input → Parent → Option Parent
parent_process [] s = some s
parent_process (i ∷ is) s = parent_pass i s >>= λ t. parent_process is t
