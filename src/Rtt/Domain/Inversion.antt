-- ===== src/Rtt/Domain/Inversion.antt =====
-- What a call that succeeds shows of its arguments.
use mathlib.Core.Option.{some-injective}
use ex_netlink.Base.{
  ℕ, ◌≡◌, ◌≢◌, refl, sym, ◌∙◌, inl, inr, Bool, true, false, Option-cases, none, some, ◌∷◌,
  get_elem?, set, if◌then◌else◌,
}
use ex_netlink.Rtt.Translation.{Connector}
use ex_netlink.Rtt.Domain.Defs.{
  no_bits, clear, place, Slot, Domain, has_key, on_new_connect, dispose,
}
use ex_netlink.Rtt.Domain.Turn.{alter}

pub not_some : {A : Type 0} (a : A) → none ≢ some a
not_some a p = cc

taken_else : (b : Bool) (x e : Domain) → (if b then none else some x) ≡ some e → b ≡ false
taken_else true x e h = absurd (not_some e h)
taken_else false x e h = refl

pub new_key :
    (d e : Domain) (f : ℕ) (c : Connector)
    → on_new_connect d f c ≡ some e
    → has_key f d.translations ≡ false
unfolding on_new_connect
new_key d e f c h = taken_else (has_key f d.translations) _ e h

pub connected_state :
    (d e : Domain) (f : ℕ) (c : Connector)
    → on_new_connect d f c ≡ some e
    → e ≡ record { fds = place f d.fds; translations = (f, c) ∷ d.translations }
unfolding on_new_connect
connected_state d e f c h = some-injective e _ (sym h ∙ rw (new_key d e f c h) refl)

pub dispose_index :
    (d e : Domain) (i : ℕ) → dispose d i ≡ some e → (s : Slot) × (get_elem? d.fds i ≡ some s)
unfolding dispose
dispose_index d e i h = elim (Option-cases (get_elem? d.fds i)) [
  | inl p ↦ absurd (not_some e (sym (rw p refl) ∙ h))
  | inr found ↦ found
]

-- The state behind a call of dispose.
pub disposed_state :
    (d e : Domain) (i : ℕ) (s : Slot)
    → get_elem? d.fds i ≡ some s
    → dispose d i ≡ some e
    → e ≡ record {
      fds = set d.fds i (record s { fd = none; events = no_bits });
      translations = clear d.translations s.fd;
    }
unfolding dispose
disposed_state d e i s found h = some-injective e _ (sym h ∙ rw found refl)

pub altered_state :
    (g : Slot → Slot) (i : ℕ) (d e : Domain)
    → alter g i d ≡ some e
    → (s : Slot) × (get_elem? d.fds i ≡ some s) × (e ≡ record d { fds = set d.fds i (g s) })
unfolding alter
altered_state g i d e h = elim (Option-cases (get_elem? d.fds i)) [
  | inl p ↦ absurd (not_some e (sym (rw p refl) ∙ h))
  | inr (s, p) ↦ (s, p, some-injective e _ (sym h ∙ rw p refl))
]
