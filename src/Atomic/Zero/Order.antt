-- ===== src/Atomic/Zero/Order.antt =====
-- In which order `ZeroEvenOdd` prints, under any schedule, and that it ends.
use ex_netlink.Atomic.Fair.{Fair, rounds, run_steps, rounds-end}
use ex_netlink.Base.{
  ℕ, suc, ◌+◌, ◌-◌, ◌*◌, ◌/◌, ◌%◌, ◌≤◌, ◌<◌, ◌≡◌, refl, subst, ap, ◌∙◌, ◌⊎◌, inl, inr, List, [],
  ◌∷◌, ◌++◌, append-nil, arith, ◌==◌, if◌then◌else◌, All, length,
}
use ex_netlink.Atomic.Zero.{
  Place, Place.tests, spins, prints, stores, returns, Counter, ZeroEvenOdd, new_zero_even_odd,
  zero_step, even_step, odd_step, Printer, runs_zero, runs_even, runs_odd, step_printer,
  run_printers,
}
use ex_netlink.Atomic.Zero.Inv.{sequence, unstored, Guard, Inv, InvAt, zero-Inv, even-Inv, odd-Inv}
use ex_netlink.Atomic.Zero.Printed.{Pending-prefix, printed-Pending}
use ex_netlink.Atomic.Zero.Moves.{moves_left, total_left, Stuck-total, move}

step-Inv :
    (t : Printer) (s : ZeroEvenOdd) (k : ℕ) → InvAt s k → (j : ℕ) × InvAt (step_printer t s) j
unfolding step_printer
step-Inv runs_zero s k v =
    (k, zero-Inv s.n s.flag s.out k s.at_zero.i s.at_zero.place s.at_even s.at_odd v)
step-Inv runs_even s k v =
    even-Inv s.n s.flag s.out k s.at_even.i s.at_even.place s.at_zero s.at_odd v
step-Inv runs_odd s k v = odd-Inv s.n s.flag s.out k s.at_odd.i s.at_odd.place s.at_zero s.at_even v

abbrev Left : ZeroEvenOdd → ℕ → Type 0
Left s m = (k : ℕ) × InvAt s k × (total_left s ≡ m)

step-keeps :
    (s : ZeroEvenOdd) (m : ℕ) (t : Printer)
    → Left s m
    → (step_printer t s ≡ s) ⊎ ((i : ℕ) × Left (step_printer t s) i × (i < m))
step-keeps s m t (k, v, l) = elim (move t s) [
  | inl less ↦
      let (j, w) = step-Inv t s k v in
      inr (total_left (step_printer t s), (j, w, refl), omega arith)
  | inr (same, why) ↦ inl same
]

moved :
    (t : Printer) (s : ZeroEvenOdd) (m k : ℕ)
    → InvAt s k
    → total_left s ≡ suc m
    → total_left (step_printer t s) < total_left s
    → (t : Printer) × (i : ℕ) × Left (step_printer t s) i × (i ≤ m)
moved t s m k v l less =
    let (j, w) = step-Inv t s k v in (t, total_left (step_printer t s), (j, w, refl), omega arith)

step-moves :
    (s : ZeroEvenOdd) (m : ℕ)
    → Left s (suc m)
    → (t : Printer) × (i : ℕ) × Left (step_printer t s) i × (i ≤ m)
step-moves s m (k, v, l) = elim (move runs_zero s) [
  | inl less ↦ moved runs_zero s m k v l less
  | inr (_, a) ↦ elim (move runs_even s) [
    | inl less ↦ moved runs_even s m k v l less
    | inr (_, b) ↦ elim (move runs_odd s) [
      | inl less ↦ moved runs_odd s m k v l less
      | inr (_, c) ↦ absurd (omega (arith, Stuck-total s k v a b c))
    ]
  ]
]

new-Inv : (n : ℕ) → InvAt (new_zero_even_odd n) 0
unfolding new_zero_even_odd
new-Inv n = ground arith

run-Inv :
    (ts : List Printer) (s : ZeroEvenOdd) (k : ℕ)
    → InvAt s k
    → (j : ℕ) × InvAt (run_steps step_printer ts s) j
run-Inv [] s k v = (k, v)
run-Inv (t ∷ ts) s k v = let (j, w) = step-Inv t s k v in run-Inv ts (step_printer t s) j w

zero_step-n : (s : ZeroEvenOdd) (c : Counter) (p : Place) → (zero_step s c p).n ≡ s.n
unfolding zero_step
zero_step-n s c tests = ground arith
zero_step-n s c spins = ground arith
zero_step-n s c prints = refl
zero_step-n s c stores = refl
zero_step-n s c returns = refl

even_step-n : (s : ZeroEvenOdd) (c : Counter) (p : Place) → (even_step s c p).n ≡ s.n
unfolding even_step
even_step-n s c tests = ground arith
even_step-n s c spins = ground arith
even_step-n s c prints = refl
even_step-n s c stores = refl
even_step-n s c returns = refl

odd_step-n : (s : ZeroEvenOdd) (c : Counter) (p : Place) → (odd_step s c p).n ≡ s.n
unfolding odd_step
odd_step-n s c tests = ground arith
odd_step-n s c spins = ground arith
odd_step-n s c prints = refl
odd_step-n s c stores = refl
odd_step-n s c returns = refl

step-n : (t : Printer) (s : ZeroEvenOdd) → (step_printer t s).n ≡ s.n
unfolding step_printer
step-n runs_zero s = zero_step-n s s.at_zero s.at_zero.place
step-n runs_even s = even_step-n s s.at_even s.at_even.place
step-n runs_odd s = odd_step-n s s.at_odd s.at_odd.place

run-n : (ts : List Printer) (s : ZeroEvenOdd) → (run_steps step_printer ts s).n ≡ s.n
run-n [] s = refl
run-n (t ∷ ts) s = run-n ts (step_printer t s) ∙ step-n t s

-- Under any schedule, what has been printed is a beginning of 0, 1, 0, 2, 0, 3 and so on up to `n`.
pub run_printers-in_order :
    (n : ℕ) (ts : List Printer)
    → (rest : List ℕ) × ((run_printers ts (new_zero_even_odd n)).out ++ rest ≡ sequence n)
unfolding run_printers new_zero_even_odd
run_printers-in_order n ts =
    let s = run_steps step_printer ts (new_zero_even_odd n) in
    let (k, v) = run-Inv ts (new_zero_even_odd n) 0 (new-Inv n) in
    let (pending, e, p) = printed-Pending s k v in
    let (rest, q) = Pending-prefix k s.n pending p v.bound in
    (rest, ap (λ l. l ++ rest) e ∙ q ∙ ap sequence (run-n ts (new_zero_even_odd n)))

no_moves : (n i : ℕ) (p : Place) → moves_left n i p ≡ 0 → p ≡ returns
no_moves n i tests h = absurd (omega arith)
no_moves n i spins h = absurd (omega arith)
no_moves n i prints h = absurd (omega arith)
no_moves n i stores h = absurd (omega arith)
no_moves n i returns h = refl

returned-sequence :
    (n flag k : ℕ) (z e o : Counter) (out : List ℕ)
    → Inv n flag z e o out k
    → z.place ≡ returns
    → e.place ≡ returns
    → o.place ≡ returns
    → out ≡ sequence n
returned-sequence n flag k z e o out v a b c =
    let zero_end : n < z.i = subst (Guard n flag 0 z.i) a v.zero_guard in
    let even_end : n < e.i = subst (Guard n flag 2 e.i) b v.even_guard in
    let odd_end : n < o.i = subst (Guard n flag 1 o.i) c v.odd_guard in
    let parity : (flag ≡ 0) ⊎ ((flag ≡ 2 - (k + 1) % 2) × (k < n)) = v.parity in
    let even_i : e.i ≡ 2 * (k / 2) + 2 = v.even_i in
    let odd_i : o.i ≡ 2 * ((k + 1) / 2) + 1 = v.odd_i in
    let unset : flag ≡ 0 = omega arith in
    let all : k ≡ n = ground (arith, v) in
    let quiet : (if flag == 0
          then unstored z.place 0
          else 0 ∷ (unstored e.place e.i ++ unstored o.place o.i))
        ≡ [] =
      rw unset (ap (λ p. unstored p 0) a) in
    v.printed ∙ ap (λ l. sequence k ++ l) quiet ∙ append-nil (sequence k) ∙ ap sequence all

returned :
    (s : ZeroEvenOdd) (k : ℕ)
    → InvAt s k
    → total_left s ≡ 0
    → (s.out ≡ sequence s.n)
      × (s.at_zero.place ≡ returns)
      × (s.at_even.place ≡ returns)
      × (s.at_odd.place ≡ returns)
returned s k v h =
    let a = no_moves s.n s.at_zero.i s.at_zero.place (omega (arith, h)) in
    let b = no_moves s.n s.at_even.i s.at_even.place (omega (arith, h)) in
    let c = no_moves s.n s.at_odd.i s.at_odd.place (omega (arith, h)) in
    (returned-sequence s.n s.flag k s.at_zero s.at_even s.at_odd s.out v a b c, a, b, c)

-- After `12 * n + 3` rounds in each of which every thread steps at least once, in any order and
-- however often, all three threads have returned and 0, 1, 0, 2, 0, 3 and so on up to `n` has been
-- printed.
pub run_printers-finishes :
    (n : ℕ) (tss : List (List Printer))
    → All Fair tss
    → 12 * n + 3 ≤ length tss
    → ((run_printers (rounds tss) (new_zero_even_odd n)).out ≡ sequence n)
      × ((run_printers (rounds tss) (new_zero_even_odd n)).at_zero.place ≡ returns)
      × ((run_printers (rounds tss) (new_zero_even_odd n)).at_even.place ≡ returns)
      × ((run_printers (rounds tss) (new_zero_even_odd n)).at_odd.place ≡ returns)
unfolding run_printers new_zero_even_odd
run_printers-finishes n tss fair h =
    let few : total_left (new_zero_even_odd n) ≤ length tss = omega arith in
    let (k, v, l) =
      rounds-end step_printer Left step-keeps step-moves tss (new_zero_even_odd n) _ fair few
        (0, new-Inv n, refl) in
    let s = run_steps step_printer (rounds tss) (new_zero_even_odd n) in
    let (out, a, b, c) = returned s k v l in
    (out ∙ ap sequence (run-n (rounds tss) (new_zero_even_odd n)), a, b, c)
