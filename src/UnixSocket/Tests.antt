-- ===== src/UnixSocket/Tests.antt =====
-- Runs of both processes: a handover, and a pass over three connections of which two are ready.
use ex_netlink.Base.{
  ℕ, ◌+◌, ◌≡◌, refl, none, some, List, [], ◌∷◌, Bool, true, false, if◌then◌else◌, ◌==◌, total,
  arith,
}
use ex_netlink.UnixSocket.Parent.{
  Parent, new_parent, Input, parent_pass, parent_process, accept_async, hand_over, send_fd,
}
use ex_netlink.UnixSocket.Child.{
  carries, recv_fd, Entry, Read, bytes, end_of_file, Action, handle_all, child_pass,
}
use ex_netlink.UnixSocket.Serve.{is_open, closed, handle_each, handle_all-each, child_pass-open}

abbrev accepts : ℕ → Bool → Input
accepts f writable = record {
  answered = true;
  listening = true;
  connected = some f;
  writable = writable;
  sendmsg = true;
}

-- Two connections are accepted before the pair can be written: the first is never sent.
first_lost :
    parent_process (accepts 8 false ∷ accepts 9 true ∷ []) new_parent
    ≡ some (record { async_fd = none; wants_out = false; log = 9 ∷ [] })
unfolding parent_process parent_pass accept_async hand_over send_fd new_parent
first_lost = refl

abbrev entry : ℕ → Bool → Bool → Entry
entry f i o = record { fd = some f; wants_out = o; pollin = i; pollout = o }

abbrev entries : List Entry
entries = entry 5 true false ∷ entry 6 false false ∷ entry 7 false true ∷ []

abbrev reads : ℕ → Read
reads f = if f == 5 then bytes (71 ∷ []) else end_of_file

handle_all-each_example : handle_all reads (some 2) entries ≡ handle_each reads entries
handle_all-each_example = handle_all-each reads 2 entries (omega arith)

nine_comes : recv_fd (carries (some 9)) ≡ some 9
unfolding recv_fd
nine_comes = refl

child_pass-open_example :
    (r : List Entry × List Action) × (child_pass reads (some 3) true (carries (some 9)) entries
      ≡ some r)
    × (total is_open r.0 + total closed r.1 ≡ total is_open entries + (if true then 1 else 0))
child_pass-open_example =
    child_pass-open reads (some 3) true (carries (some 9)) 9 entries nine_comes
