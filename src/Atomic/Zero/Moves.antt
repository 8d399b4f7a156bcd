-- ===== src/Atomic/Zero/Moves.antt =====
-- Each step of `ZeroEvenOdd` makes a move, or its thread has returned or waits.
use ex_netlink.Base.{
  ℕ, ◌+◌, ◌-◌, ◌*◌, ◌<◌, ◌≡◌, ◌≢◌, refl, ◌⊎◌, inl, inr, List, Bool-cases, arith, ◌==◌,
}
use ex_netlink.Atomic.Zero.{
  Place, Place.tests, spins, prints, stores, returns, Counter, ZeroEvenOdd, zero_step, even_step,
  odd_step, Printer, runs_zero, runs_even, runs_odd, step_printer,
}
use ex_netlink.Atomic.Zero.Inv.{InvAt}

-- How many moves a thread with this counter has left, at most.
abbrev pub moves_left : ℕ → ℕ → Place → ℕ
moves_left n i tests = 4 * (n + 1 - i) + 1
moves_left n i spins = 4 * (n - i) + 4
moves_left n i prints = 4 * (n - i) + 3
moves_left n i stores = 4 * (n - i) + 2
moves_left n i returns = 0

abbrev pub total_left : ZeroEvenOdd → ℕ
total_left s =
    moves_left s.n s.at_zero.i s.at_zero.place
    + moves_left s.n s.at_even.i s.at_even.place
    + moves_left s.n s.at_odd.i s.at_odd.place

-- Why a thread does not move: it has returned, or waits for the flag.
abbrev pub Stuck : ℕ → ℕ → Place → Type 0
Stuck flag own p = (p ≡ returns) ⊎ ((p ≡ spins) × (flag ≢ own))

module _ (n flag : ℕ) (z e o : Counter) (out : List ℕ) where
  abbrev whole : Counter → Counter → Counter → ZeroEvenOdd
  whole z e o = record { n = n; flag = flag; at_zero = z; at_even = e; at_odd = o; out = out }

  -- A step makes a move, or leaves the state and its thread is stuck.
  abbrev MovesOr : ℕ → Place → ZeroEvenOdd → ZeroEvenOdd → Type 0
  MovesOr own p s r = (total_left r < total_left s) ⊎ ((r ≡ s) × Stuck flag own p)

  zero-move :
      (i : ℕ) (p : Place)
      → MovesOr 0 p
          (whole (record { i = i; place = p }) e o)
          (zero_step (whole (record { i = i; place = p }) e o) (record { i = i; place = p }) p)
  unfolding zero_step
  zero-move i tests = inl (ground arith)
  zero-move i spins = elim (Bool-cases (flag == 0)) [
    | inl h ↦ inl (rw h (ground arith))
    | inr h ↦ inr (rw h refl, inr (refl, ground arith))
  ]
  zero-move i prints = inl (ground arith)
  zero-move i stores = inl (ground arith)
  zero-move i returns = inr (refl, inl refl)

  even-move :
      (i : ℕ) (p : Place)
      → MovesOr 2 p
          (whole z (record { i = i; place = p }) o)
          (even_step (whole z (record { i = i; place = p }) o) (record { i = i; place = p }) p)
  unfolding even_step
  even-move i tests = inl (ground arith)
  even-move i spins = elim (Bool-cases (flag == 2)) [
    | inl h ↦ inl (rw h (ground arith))
    | inr h ↦ inr (rw h refl, inr (refl, ground arith))
  ]
  even-move i prints = inl (ground arith)
  even-move i stores = inl (ground arith)
  even-move i returns = inr (refl, inl refl)

  odd-move :
      (i : ℕ) (p : Place)
      → MovesOr 1 p
          (whole z e (record { i = i; place = p }))
          (odd_step (whole z e (record { i = i; place = p })) (record { i = i; place = p }) p)
  unfolding odd_step
  odd-move i tests = inl (ground arith)
  odd-move i spins = elim (Bool-cases (flag == 1)) [
    | inl h ↦ inl (rw h (ground arith))
    | inr h ↦ inr (rw h refl, inr (refl, ground arith))
  ]
  odd-move i prints = inl (ground arith)
  odd-move i stores = inl (ground arith)
  odd-move i returns = inr (refl, inl refl)

-- Where all three threads are stuck they have all returned.
pub Stuck-total :
    (s : ZeroEvenOdd) (k : ℕ)
    → InvAt s k
    → Stuck s.flag 0 s.at_zero.place
    → Stuck s.flag 2 s.at_even.place
    → Stuck s.flag 1 s.at_odd.place
    → total_left s ≡ 0
Stuck-total s k v a b c = ground (arith, v)

abbrev pub StuckAt : Printer → ZeroEvenOdd → Type 0
StuckAt runs_zero s = Stuck s.flag 0 s.at_zero.place
StuckAt runs_even s = Stuck s.flag 2 s.at_even.place
StuckAt runs_odd s = Stuck s.flag 1 s.at_odd.place

pub move :
    (t : Printer) (s : ZeroEvenOdd)
    → (total_left (step_printer t s) < total_left s) ⊎ ((step_printer t s ≡ s) × StuckAt t s)
unfolding step_printer
move runs_zero s =
    zero-move s.n s.flag s.at_zero s.at_even s.at_odd s.out s.at_zero.i s.at_zero.place
move runs_even s =
    even-move s.n s.flag s.at_zero s.at_even s.at_odd s.out s.at_even.i s.at_even.place
move runs_odd s = odd-move s.n s.flag s.at_zero s.at_even s.at_odd s.out s.at_odd.i s.at_odd.place
