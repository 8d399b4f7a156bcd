-- ===== src/Atomic/Zero/Printed.antt =====
-- What `ZeroEvenOdd` has printed in a reachable state is a beginning of the sequence.
use ex_netlink.Base.{
  ℕ, zero, suc, ◌+◌, ◌-◌, ◌%◌, ◌≤◌, ◌<◌, ◌≡◌, refl, sym, ap, ◌∙◌, ◌⊎◌, inl, inr, List, [], ◌∷◌,
  ◌++◌, append_assoc, append-nil, Bool-cases, arith, ◌==◌,
}
use ex_netlink.Atomic.Zero.{Place, Place.tests, spins, prints, stores, returns, ZeroEvenOdd}
use ex_netlink.Atomic.Zero.Inv.{sequence, unstored, Guard, InvAt, unstored-idle}

sequence_more : (k d : ℕ) → (rest : List ℕ) × (sequence k ++ rest ≡ sequence (k + d))
sequence_more k zero =
    let same : k ≡ k + 0 = omega arith in ([], append-nil (sequence k) ∙ ap sequence same)
sequence_more k (suc d) =
    let (rest, e) = sequence_more (suc k) d in
    let same : suc k + d ≡ k + suc d = omega arith in
    (0 ∷ suc k ∷ rest, sym (append_assoc (sequence k) (0 ∷ suc k ∷ []) rest) ∙ e ∙ ap sequence same)

-- The numbers up to `k`, with those that follow up to `n`.
sequence_split : (k n : ℕ) → k ≤ n → (rest : List ℕ) × (sequence k ++ rest ≡ sequence n)
sequence_split k n h =
    let (rest, e) = sequence_more k (n - k) in
    let same : k + (n - k) ≡ n = omega arith in (rest, e ∙ ap sequence same)

zero_printed : (k n : ℕ) → k < n → (rest : List ℕ) × ((sequence k ++ (0 ∷ [])) ++ rest ≡ sequence n)
zero_printed k n h =
    let (rest, e) = sequence_split (suc k) n (omega arith) in
    (
      suc k ∷ rest,
      append_assoc (sequence k) (0 ∷ []) (suc k ∷ rest)
          ∙ sym (append_assoc (sequence k) (0 ∷ suc k ∷ []) rest)
          ∙ e,
    )

-- The numbers printed after the `k`-th was stored.
abbrev pub Pending : ℕ → ℕ → List ℕ → Type 0
Pending n k pending = (pending ≡ []) ⊎ ((k < n) × ((pending ≡ 0 ∷ []) ⊎ (pending ≡ 0 ∷ suc k ∷ [])))

pub Pending-prefix :
    (k n : ℕ) (pending : List ℕ)
    → Pending n k pending
    → k ≤ n
    → (rest : List ℕ) × ((sequence k ++ pending) ++ rest ≡ sequence n)
Pending-prefix k n pending (inl e) le =
    let (rest, p) = sequence_split k n le in
    (
      rest,
      ap (λ l. (sequence k ++ l) ++ rest) e ∙ ap (λ l. l ++ rest) (append-nil (sequence k)) ∙ p,
    )
Pending-prefix k n pending (inr (lt, inl e)) le =
    let (rest, p) = zero_printed k n lt in (rest, ap (λ l. (sequence k ++ l) ++ rest) e ∙ p)
Pending-prefix k n pending (inr (lt, inr e)) le =
    let (rest, p) = sequence_split (suc k) n (omega arith) in
    (rest, ap (λ l. (sequence k ++ l) ++ rest) e ∙ p)

unstored_number : (p : Place) (i : ℕ) → (unstored p i ≡ []) ⊎ (unstored p i ≡ i ∷ [])
unstored_number tests i = inl refl
unstored_number spins i = inl refl
unstored_number prints i = inl refl
unstored_number stores i = inr refl
unstored_number returns i = inl refl

zero-Pending :
    (n k flag i : ℕ) (p : Place) → Guard n flag 0 i p → i ≡ k + 1 → Pending n k (unstored p 0)
zero-Pending n k flag i tests g e = inl refl
zero-Pending n k flag i spins g e = inl refl
zero-Pending n k flag i prints g e = inl refl
zero-Pending n k flag i stores g e = inr (omega (arith, g), inl refl)
zero-Pending n k flag i returns g e = inl refl

one-Pending :
    (n k i : ℕ) (own : List ℕ)
    → (own ≡ []) ⊎ (own ≡ i ∷ [])
    → k < n
    → i ≡ suc k
    → Pending n k (0 ∷ own)
one-Pending n k i own (inl e) lt h = inr (lt, inl (ap (λ l. 0 ∷ l) e))
one-Pending n k i own (inr e) lt h = inr (lt, inr (ap (λ l. 0 ∷ l) e ∙ ap (λ j. 0 ∷ j ∷ []) h))

-- What has been printed is a beginning of the sequence.
pub printed-Pending :
    (s : ZeroEvenOdd) (k : ℕ)
    → InvAt s k
    → (pending : List ℕ) × (s.out ≡ sequence k ++ pending) × Pending s.n k pending
printed-Pending s k v = (
  _,
  v.printed,
  elim (Bool-cases (s.flag == 0)) [
    | inl h ↦
        rw h
          (zero-Pending s.n k s.flag s.at_zero.i s.at_zero.place v.zero_guard (ground (arith, v)))
    | inr h ↦ rw h (elim (Bool-cases ((k + 1) % 2 == 0)) [
      | inl even ↦
          let own = unstored_number s.at_even.place s.at_even.i in
          let idle =
            unstored-idle s.n s.flag 1 s.at_odd.i s.at_odd.place s.at_odd.i v.odd_guard
              (ground (arith, v)) in
          rw idle (
            rw (append-nil (unstored s.at_even.place s.at_even.i))
              (one-Pending s.n k s.at_even.i _ own (ground (arith, v)) (ground (arith, v))))
      | inr odd ↦
          let own = unstored_number s.at_odd.place s.at_odd.i in
          let idle =
            unstored-idle s.n s.flag 2 s.at_even.i s.at_even.place s.at_even.i v.even_guard
              (ground (arith, v)) in
          rw idle (one-Pending s.n k s.at_odd.i _ own (ground (arith, v)) (ground (arith, v)))
    ])
  ],
)
