-- ===== src/Netlink/Tests.antt =====
-- A datagram of three messages of 16 bytes, of which the second is NLMSG_DONE.
use ex_netlink.Base.{ℕ, ◌+◌, ◌-◌, ◌≡◌, refl, some, [], ◌∷◌, Bool, true, leb, ◌==◌, if◌then◌else◌}
use ex_netlink.Netlink.{
  MessageType, done, newlink, deladdr, newlink_or_dellink, reads, walk, handle, pass, report,
}

abbrev ok : ℕ → ℕ → Bool
ok nlh size = leb 16 size

abbrev following : ℕ → ℕ → ℕ × ℕ
following nlh size = (nlh + 16, size - 16)

abbrev type_at : ℕ → MessageType
type_at nlh = if nlh == 0 then newlink else if nlh == 16 then done else deladdr

goes_past_done :
    pass ok following type_at true true (reads 48)
    ≡ some (newlink_or_dellink ∷ newlink_or_dellink ∷ [])
unfolding pass handle walk report
goes_past_done = refl
