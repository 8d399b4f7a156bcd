-- ===== src/Buffer/Straight.antt =====
-- A buffer of which the unread bytes lie in one piece.
use ex_netlink.Base.{ℕ, ◌-◌, ◌≤◌, ◌≡◌, ap, ◌∙◌, some, List, arith, length, drop}
use ex_netlink.Buffer.Defs.{Buffer, padding, readed_size, retrieve_all, skip}
use ex_netlink.Buffer.Inv.{IsValid, contents, length-contents, readed_size_lem}
use ex_netlink.Buffer.Skip.{skipped, skip_lem, contents-skipped, skipped-IsValid}

-- A buffer in one piece that holds these bytes.
pub record Holds (b : Buffer) (bytes : List ℕ) : Type 0 where
  pub valid : IsValid b
  pub straight : b.readindex ≤ b.writeindex
  pub held : contents b ≡ bytes

skipped-straight :
    (b : Buffer) (n : ℕ)
    → b.readindex ≤ b.writeindex
    → n ≤ b.writeindex - b.readindex
    → readed_size b ≡ b.writeindex - b.readindex
    → padding ≤ b.readindex
    → ((skipped b n).readindex ≤ (skipped b n).writeindex) × (padding ≤ (skipped b n).readindex)
unfolding retrieve_all
skipped-straight b n u h e g = ground arith

-- `skip` of no more than a buffer in one piece holds leaves the rest in one piece.
pub skip-Holds :
    {b : Buffer} {bytes : List ℕ} (n : ℕ)
    → Holds b bytes
    → n ≤ length bytes
    → (c : Buffer) × (skip b n ≡ some c) × Holds c (drop n bytes)
skip-Holds {b} {bytes} n h le = (
  skipped b n,
  skip_lem n valid enough,
  record {
    valid = skipped-IsValid n valid enough (omega (arith, valid)) after.1;
    straight = after.0;
    held = contents-skipped n valid enough ∙ ap (drop n) held;
  },
)
  where
    open h use {valid, straight, held}

    enough : n ≤ readed_size b
    enough = omega (arith, length-contents valid, ap (length {A = ℕ}) held)

    after :
        ((skipped b n).readindex ≤ (skipped b n).writeindex) × (padding ≤ (skipped b n).readindex)
    after =
        skipped-straight b n straight (omega (arith, enough, readed_size_lem valid))
          (omega (arith, readed_size_lem valid)) valid.guarded
