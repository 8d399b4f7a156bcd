-- ===== src/Atomic/Zero/Inv.antt =====
-- What every reachable state of `ZeroEvenOdd` has in common.
use ex_netlink.Base.{
  ℕ, zero, suc, ◌+◌, ◌-◌, ◌*◌, ◌/◌, ◌%◌, ◌≤◌, ◌<◌, ◌≡◌, ◌≢◌, refl, sym, ap, ◌∙◌, ◌⊎◌, List, [], ◌∷◌,
  ◌++◌, append_assoc, append-nil, arith, ◌==◌, if◌then◌else◌,
}
use ex_netlink.Atomic.Zero.{
  Place, Place.tests, spins, prints, stores, returns, Counter, ZeroEvenOdd, zero_step, even_step,
  odd_step,
}

-- The numbers up to `k`, each behind a 0.
abbrev pub sequence : ℕ → List ℕ
sequence zero = []
sequence (suc k) = sequence k ++ (0 ∷ suc k ∷ [])

-- What a thread has printed and not yet stored.
abbrev pub unstored : Place → ℕ → List ℕ
unstored tests x = []
unstored spins x = []
unstored prints x = []
unstored stores x = x ∷ []
unstored returns x = []

-- A thread prints and stores only while the flag has its value, and within the bound.
abbrev pub Guard : ℕ → ℕ → ℕ → ℕ → Place → Type 0
Guard n flag own i tests = Unit
Guard n flag own i spins = i ≤ n
Guard n flag own i prints = (flag ≡ own) × (i ≤ n)
Guard n flag own i stores = (flag ≡ own) × (i ≤ n)
Guard n flag own i returns = n < i

-- The state with `k` numbers stored.
pub record Inv (n flag : ℕ) (z e o : Counter) (out : List ℕ) (k : ℕ) : Type 0 where
  pub bound : k ≤ n
  pub zero_i : z.i ≡ (if flag == 0 then k + 1 else k + 2)
  pub parity : (flag ≡ 0) ⊎ ((flag ≡ 2 - (k + 1) % 2) × (k < n))
  pub even_i : e.i ≡ 2 * (k / 2) + 2
  pub odd_i : o.i ≡ 2 * ((k + 1) / 2) + 1
  pub zero_guard : Guard n flag 0 z.i z.place
  pub even_guard : Guard n flag 2 e.i e.place
  pub odd_guard : Guard n flag 1 o.i o.place
  pub printed :
      out
      ≡ sequence k
        ++ (if flag == 0
            then unstored z.place 0
            else 0 ∷ (unstored e.place e.i ++ unstored o.place o.i))

abbrev pub InvAt : ZeroEvenOdd → ℕ → Type 0
InvAt s k = Inv s.n s.flag s.at_zero s.at_even s.at_odd s.out k

pub unstored-idle :
    (n flag own i : ℕ) (p : Place) (x : ℕ) → Guard n flag own i p → flag ≢ own → unstored p x ≡ []
unstored-idle n flag own i tests x g h = refl
unstored-idle n flag own i spins x g h = refl
unstored-idle n flag own i prints x g h = refl
unstored-idle n flag own i stores x g h = absurd (h g.0)
unstored-idle n flag own i returns x g h = refl

-- A thread whose turn it is not may see the flag change.
Guard-change :
    (n flag flag' own i : ℕ) (p : Place) → Guard n flag own i p → flag ≢ own → Guard n flag' own i p
Guard-change n flag flag' own i tests g h = tt
Guard-change n flag flag' own i spins g h = g
Guard-change n flag flag' own i prints g h = absurd (h g.0)
Guard-change n flag flag' own i stores g h = absurd (h g.0)
Guard-change n flag flag' own i returns g h = g

module _ (n flag : ℕ) (out : List ℕ) (k : ℕ) where
  printed_number :
      (f : ℕ) (rest : List ℕ) (p : Place)
      → out ≡ sequence k ++ (if f == 0 then unstored p 0 else rest)
      → f ≢ 0
      → out ≡ sequence k ++ rest
  printed_number f rest p h ne = ground arith

  stored :
      (x : ℕ) (p : Place)
      → out ≡ sequence k ++ (0 ∷ x ∷ [])
      → x ≡ suc k
      → unstored p 0 ≡ []
      → out ≡ sequence (suc k) ++ unstored p 0
  stored x p h e q = rw q (
      h
      ∙ ap (λ y. sequence k ++ (0 ∷ y ∷ [])) e
      ∙ sym (append-nil (sequence k ++ (0 ∷ suc k ∷ []))))

  pub zero-Inv :
      (i : ℕ) (p : Place) (e o : Counter)
      → Inv n flag (record { i = i; place = p }) e o out k
      → InvAt
          (zero_step
            (record {
              n = n;
              flag = flag;
              at_zero = record { i = i; place = p };
              at_even = e;
              at_odd = o;
              out = out;
            })
            (record { i = i; place = p })
            p)
          k
  unfolding zero_step
  zero-Inv i tests e o v = ground arith
  zero-Inv i spins e o v = ground arith
  zero-Inv i prints e o v = ground (arith, append-nil (sequence k))
  zero-Inv i stores e o v = ground arith
  zero-Inv i returns e o v = v

  pub even-Inv :
      (i : ℕ) (p : Place) (z o : Counter)
      → Inv n flag z (record { i = i; place = p }) o out k
      → (j : ℕ) × InvAt
          (even_step
            (record {
              n = n;
              flag = flag;
              at_zero = z;
              at_even = record { i = i; place = p };
              at_odd = o;
              out = out;
            })
            (record { i = i; place = p })
            p)
          j
  unfolding even_step
  even-Inv i tests z o v = (k, ground arith)
  even-Inv i spins z o v = (k, ground arith)
  even-Inv i prints z o v = (
    k,
    ground (
      arith,
      unstored-idle n flag 1 o.i o.place o.i v.odd_guard,
      append_assoc (sequence k) (0 ∷ []) (i ∷ []),
    ),
  )
  even-Inv i stores z o v =
      let quiet = unstored-idle n flag 0 z.i z.place 0 v.zero_guard (omega (arith, v)) in
      let other = unstored-idle n flag 1 o.i o.place o.i v.odd_guard (omega (arith, v)) in
      let p =
        printed_number flag (0 ∷ (i ∷ unstored o.place o.i)) z.place v.printed (omega (arith, v)) in
      let q =
        stored i z.place (p ∙ ap (λ r. sequence k ++ (0 ∷ i ∷ r)) other) (omega (arith, v)) quiet in
      (
        suc k,
        ground (
          arith,
          q,
          Guard-change n flag 0 0 z.i z.place v.zero_guard,
          Guard-change n flag 0 1 o.i o.place v.odd_guard,
        ),
      )
  even-Inv i returns z o v = (k, v)

  pub odd-Inv :
      (i : ℕ) (p : Place) (z e : Counter)
      → Inv n flag z e (record { i = i; place = p }) out k
      → (j : ℕ) × InvAt
          (odd_step
            (record {
              n = n;
              flag = flag;
              at_zero = z;
              at_even = e;
              at_odd = record { i = i; place = p };
              out = out;
            })
            (record { i = i; place = p })
            p)
          j
  unfolding odd_step
  odd-Inv i tests z e v = (k, ground arith)
  odd-Inv i spins z e v = (k, ground arith)
  odd-Inv i prints z e v = (
    k,
    ground (
      arith,
      unstored-idle n flag 2 e.i e.place e.i v.even_guard,
      append_assoc (sequence k) (0 ∷ []) (i ∷ []),
    ),
  )
  odd-Inv i stores z e v =
      let quiet = unstored-idle n flag 0 z.i z.place 0 v.zero_guard (omega (arith, v)) in
      let other = unstored-idle n flag 2 e.i e.place e.i v.even_guard (omega (arith, v)) in
      let p =
        printed_number flag (0 ∷ (unstored e.place e.i ++ (i ∷ []))) z.place v.printed
          (omega (arith, v)) in
      let q =
        stored i z.place (p ∙ ap (λ r. sequence k ++ (0 ∷ (r ++ (i ∷ [])))) other)
          (omega (arith, v)) quiet in
      (
        suc k,
        ground (
          arith,
          q,
          Guard-change n flag 0 0 z.i z.place v.zero_guard,
          Guard-change n flag 0 2 e.i e.place v.even_guard,
        ),
      )
  odd-Inv i returns z e v = (k, v)
