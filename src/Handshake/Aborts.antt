-- ===== src/Handshake/Aborts.antt =====
-- In set/api/main1.cpp no connection can be accepted, and the server's assertion ends the process.
use ex_netlink.Base.{ℕ, suc, Option, none, some, Bool, true, false, ◌≡◌, refl}
use ex_netlink.Handshake.Prog.{
  Sys, Fd, accept, getsockname, Call, sys, lock, unlock, wait, store, notify_one, notify_all, start,
  join, Prog, done, abort, call, reports,
}
use ex_netlink.Handshake.Api1

-- Whether a function that runs alone comes to `abort`, by what the system answers to each call.
module _ (answers : Sys → Option ℕ) where
  abbrev pub answer : Call → Option ℕ
  answer (sys line s) = answers s
  answer (lock m) = none
  answer (unlock m) = none
  answer (wait m) = none
  answer (store m) = none
  answer (notify_one m) = none
  answer (notify_all m) = none
  answer (start m) = none
  answer (join m) = none

  unfoldable pub aborts : Prog → Bool
  aborts done = false
  aborts abort = true
  aborts (call c k) = aborts (k (answer c))

  reports-aborts :
      (a : Option ℕ) (line : ℕ) (rest : Prog) → aborts (reports a line (λ _. rest)) ≡ aborts rest
  unfolding aborts
  reports-aborts none line rest = refl
  reports-aborts (some x) line rest = refl

  serve-aborts :
      (n : ℕ) (fd : Fd)
      → answers (accept fd) ≡ none
      → answers (getsockname none) ≡ none
      → aborts (Api1.serve (suc n) fd) ≡ true
  unfolding aborts Api1.serve
  serve-aborts n fd refused unnamed = simp (reports-aborts, refused, unnamed, aborts)

  -- Where `accept` fails, as it does on a socket that does not listen, and `getsockname` fails on the
  -- descriptor -1, the server of set/api/main1.cpp aborts the process in its first pass, whatever
  -- its other calls answer.
  server-aborts :
      (n : ℕ)
      → ((fd : Fd) → answers (accept fd) ≡ none)
      → answers (getsockname none) ≡ none
      → aborts (Api1.server (suc n)) ≡ true
  unfolding aborts Api1.server
  server-aborts n refused unnamed = simp (reports-aborts, serve-aborts, refused, unnamed, aborts)
