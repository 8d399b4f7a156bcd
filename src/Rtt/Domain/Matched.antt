-- ===== src/Rtt/Domain/Matched.antt =====
-- The table of connections and the array of descriptors agree, whatever writes to them.
use mathlib.Core.Option.{some-injective}
use ex_netlink.Base.{
  ℕ, ◌+◌, ◌≤◌, ◌≡◌, refl, sym, subst, ◌∙◌, inl, inr, Option-cases, none, some, List, [], ◌∷◌, false,
  ◌==◌, if◌then◌else◌, get_elem?, set, total, total-set, arith,
}
use ex_netlink.Rtt.Domain.Inversion.{dispose_index, altered_state}
use ex_netlink.Rtt.Domain.Turn.{update, with_translation, alter, wait_in, wait_out}
use ex_netlink.Rtt.Domain.Kept.Turns.{Closed}
use ex_netlink.Rtt.Domain.Defs.{
  Slot, Domain, has_key, erase_key, place, on_new_connect, clear, dispose, no_bits,
}
use ex_netlink.Rtt.Translation.{Translation, Connector}

abbrev pub is_fd : ℕ → Slot → ℕ
is_fd k s = elim s.fd [ none ↦ 0 | some f ↦ if k == f then 1 else 0 ]

abbrev pub is_key : ℕ → ℕ × Connector → ℕ
is_key k (f, c) = if k == f then 1 else 0

-- Each descriptor has as many entries in the array as in the table, and one at most.
abbrev pub IsMatched : Domain → Type 0
IsMatched d =
    (k : ℕ)
    → (total (is_fd k) d.fds ≡ total (is_key k) d.translations) × (total (is_fd k) d.fds ≤ 1)

total-place :
    (k f : ℕ) (ss : List Slot)
    → total (is_fd k) (place f ss) ≡ total (is_fd k) ss + (if k == f then 1 else 0)
unfolding place
total-place k f [] = ground arith
total-place k f (s ∷ ss) = ground (arith, total-place k f ss)

total-has_key : (f : ℕ) (ks : List (ℕ × Connector)) → has_key f ks ≡ false → total (is_key f) ks ≡ 0
unfolding has_key
total-has_key f [] h = refl
total-has_key f ((k, c) ∷ ks) h = ground (arith, total-has_key f ks)

total-erase_key :
    (k f : ℕ) (ks : List (ℕ × Connector))
    → total (is_key k) (erase_key f ks) ≡ (if k == f then 0 else total (is_key k) ks)
unfolding erase_key
total-erase_key k f [] = ground arith
total-erase_key k f ((j, c) ∷ ks) = ground (arith, total-erase_key k f ks)

-- `onNewConnect` of a descriptor that the table does not have keeps the two in agreement.
pub on_new_connect-IsMatched :
    (d : Domain) (f : ℕ) (c : Connector)
    → IsMatched d
    → has_key f d.translations ≡ false
    → (e : Domain) × (on_new_connect d f c ≡ some e) × IsMatched e
unfolding on_new_connect
on_new_connect-IsMatched d f c m h = (
  record { fds = place f d.fds; translations = (f, c) ∷ d.translations },
  rw h refl,
  λ k. ground (arith, total-place k f d.fds, m k, total-has_key f d.translations h),
)

-- `dispose` of an index of the array keeps them in agreement.
pub dispose-IsMatched :
    (d : Domain) (i : ℕ) (s : Slot)
    → IsMatched d
    → get_elem? d.fds i ≡ some s
    → (e : Domain) × (dispose d i ≡ some e) × IsMatched e
unfolding dispose clear
dispose-IsMatched d i s m h = (
  record { fds = set d.fds i freed; translations = clear d.translations s.fd },
  rw h refl,
  λ k.
      let old = total-set (is_fd k) d.fds i s freed h in
      elim (Option-cases s.fd) [ inl e ↦ none_left k e old | inr (f, e) ↦ one_less k f e old ],
)
  where
    freed : Slot
    freed = record s { fd = none; events = no_bits }

    none_left :
        (k : ℕ)
        → s.fd ≡ none
        → total (is_fd k) (set d.fds i freed) + is_fd k s ≡ total (is_fd k) d.fds + 0
        → (total (is_fd k) (set d.fds i freed) ≡ total (is_key k) (clear d.translations s.fd))
          × (total (is_fd k) (set d.fds i freed) ≤ 1)
    none_left k e old = rw e (ground (arith, m k))

    one_less :
        (k f : ℕ)
        → s.fd ≡ some f
        → total (is_fd k) (set d.fds i freed) + is_fd k s ≡ total (is_fd k) d.fds + 0
        → (total (is_fd k) (set d.fds i freed) ≡ total (is_key k) (clear d.translations s.fd))
          × (total (is_fd k) (set d.fds i freed) ≤ 1)
    one_less k f e old = rw e (ground (arith, m k, total-erase_key k f d.translations))

total-update :
    (k f : ℕ) (v : Translation) (t : List (ℕ × Connector))
    → total (is_key k) (update f v t) ≡ total (is_key k) t
unfolding update
total-update k f v [] = refl
total-update k f v ((j, c) ∷ t) = ground (arith, total-update k f v t)

-- A write that leaves the descriptor of its entry.
alter-IsMatched :
    (g : Slot → Slot) (i : ℕ) (d e : Domain)
    → ((k : ℕ) (s : Slot) → is_fd k (g s) ≡ is_fd k s)
    → alter g i d ≡ some e
    → IsMatched d
    → IsMatched e
alter-IsMatched g i d e same h m =
    let (s, found, after) = altered_state g i d e h in
    subst IsMatched (sym after)
      (λ k. omega (arith, total-set (is_fd k) d.fds i s (g s) found, same k s, m k))

-- What a turn writes keeps the two in agreement.
pub IsMatched-Closed : (i f : ℕ) → Closed IsMatched (λ a. Unit {0}) i f
unfolding with_translation wait_in wait_out
IsMatched-Closed i f = record {
  dispose_keeps = λ d e h m.
      let (s, found) = dispose_index d e i h in
      let (c, same, n) = dispose-IsMatched d i s m found in
      subst IsMatched (some-injective c e (sym same ∙ h)) n;
  wait_in_keeps = λ d e h m. alter-IsMatched wait_in i d e (λ k s. refl) h m;
  wait_out_keeps = λ d e h m. alter-IsMatched wait_out i d e (λ k s. refl) h m;
  store_keeps = λ d t v l m k. omega (arith, total-update k f v d.translations, m k);
  answers_in = λ d t bytes l m. tt;
  drains_in = λ d t n l m. tt;
  shuts_in = tt;
}
