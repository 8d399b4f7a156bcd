-- ===== src/Rtt/Domain/Unsent.antt =====
-- No byte of an answer is lost or sent twice where write(2) takes a part of it.
use ex_netlink.Base.{
  ℕ, zero, suc, ◌≤◌, ◌<◌, ◌≡◌, refl, ap, ◌∙◌, some, List, [], ◌++◌, Bool, ltb, length, length-drop,
  take, drop, take_all, take-append-drop, arith, lt→ltb, le→ltb, append-nil, dec_lt,
}
use ex_netlink.Buffer.{Buffer, writed_size}
use ex_netlink.Buffer.Inv.{IsValid, contents}
use ex_netlink.Buffer.Append.{append_room}
use ex_netlink.Rtt.Package.{sizeof_rtt_package}
use ex_netlink.Rtt.Domain.Defs.{wrote, keep_unsent}

-- Where write(2) takes `n` bytes of an answer, one at least, and `wbuffer` is empty and has room for
-- an answer: the bytes taken and then those in `wbuffer` are the answer, and the connection waits
-- for POLLOUT just if bytes are left.
pub keep_unsent_lem :
    (fresh : ℕ → List ℕ) {b : Buffer} (pkg : List ℕ) (n : ℕ) (eagain : Bool)
    → IsValid b
    → contents b ≡ []
    → sizeof_rtt_package ≤ writed_size b
    → length pkg ≡ sizeof_rtt_package
    → 0 < n
    → (c : Buffer) × (keep_unsent fresh b pkg (wrote n) eagain ≡ some (c, ltb n sizeof_rtt_package))
      × IsValid c
      × (take n pkg ++ contents c ≡ pkg)
unfolding keep_unsent
keep_unsent_lem fresh {b} pkg zero eagain v e room size h = absurd (omega arith)
keep_unsent_lem fresh {b} pkg (suc n) eagain v e room size h = elim (dec_lt (suc n) 24) [
  | yes short ↦
      let (c, a, p) =
        append_room fresh (drop (suc n) pkg) v (omega (arith, length-drop (suc n) pkg)) in
      (
        c,
        rw (lt→ltb (suc n) 24 short, a) refl,
        p.valid,
        ap (λ r. take (suc n) pkg ++ r) (p.added ∙ ap (λ r. r ++ drop (suc n) pkg) e)
            ∙ take-append-drop (suc n) pkg,
      )
  | no whole ↦ (
    b,
    rw (le→ltb (suc n) 24 (omega arith)) refl,
    v,
    ap (λ r. take (suc n) pkg ++ r) e
        ∙ append-nil (take (suc n) pkg)
        ∙ take_all (suc n) pkg (omega arith),
  )
]
