-- ===== src/Atomic/Fair.antt =====
-- Schedules in rounds, and why a system whose steps wait or make progress ends under them.
use ex_netlink.Base.{
  ℕ, zero, suc, ◌≤◌, ◌<◌, ◌≡◌, sym, subst, ap, ◌∙◌, ◌⊎◌, inl, inr, List, [], ◌∷◌, ◌++◌, arith, All,
  length, refl,
}

-- A schedule in which each thread steps.
pub record Fair {T : Type 0} (ts : List T) : Type 0 where
  pub each : (t : T) → (before : List T) × (after : List T) × (ts ≡ before ++ (t ∷ after))

abbrev pub rounds : {T : Type 0} → List (List T) → List T
rounds [] = []
rounds (ts ∷ tss) = ts ++ rounds tss

abbrev pub run_steps : {T : Type 0} {S : Type 0} → (T → S → S) → List T → S → S
run_steps step [] s = s
run_steps step (t ∷ ts) s = run_steps step ts (step t s)

pub run_steps-append :
    {T : Type 0} {S : Type 0} (step : T → S → S) (ts us : List T) (s : S)
    → run_steps step (ts ++ us) s ≡ run_steps step us (run_steps step ts s)
run_steps-append step [] us s = refl
run_steps-append step (t ∷ ts) us s = run_steps-append step ts us (step t s)

-- `P s m` holds of the states that are at most `m` moves from the end. A step leaves the state or
-- makes a move, and a state that is not at the end has a thread that moves.
module _ {T : Type 0} {S : Type 0} (step : T → S → S) (P : S → ℕ → Type 0)
    (keeps : (s : S) (m : ℕ) (t : T)
      → P s m
      → (step t s ≡ s) ⊎ ((k : ℕ) × P (step t s) k × (k < m)))
    (moves : (s : S) (m : ℕ) → P s (suc m) → (t : T) × (k : ℕ) × P (step t s) k × (k ≤ m)) where
  pub run_steps-keeps :
      (ts : List T) (s : S) (m : ℕ)
      → P s m
      → (run_steps step ts s ≡ s) ⊎ ((k : ℕ) × P (run_steps step ts s) k × (k < m))
  run_steps-keeps [] s m p = inl refl
  run_steps-keeps (t ∷ ts) s m p = elim (keeps s m t p) [
    | inl e ↦
        subst (λ r. (run_steps step ts r ≡ s) ⊎ ((k : ℕ) × P (run_steps step ts r) k × (k < m)))
          (sym e) (run_steps-keeps ts s m p)
    | inr (k, q, lt) ↦ elim (run_steps-keeps ts (step t s) k q) [
      | inl e ↦ inr (k, subst (λ r. P r k) (sym e) q, lt)
      | inr (j, r, le) ↦ inr (j, r, omega arith)
    ]
  ]

  -- At most `m` moves are left after any steps.
  at_most : (ts : List T) (s : S) (m : ℕ) → P s m → (k : ℕ) × P (run_steps step ts s) k × (k ≤ m)
  at_most ts s m p = elim (run_steps-keeps ts s m p) [
    | inl e ↦ (m, subst (λ r. P r m) (sym e) p, omega arith)
    | inr (k, q, lt) ↦ (k, q, omega arith)
  ]

  round-moves :
      (ts : List T) (s : S) (m : ℕ)
      → Fair ts
      → P s (suc m)
      → (k : ℕ) × P (run_steps step ts s) k × (k ≤ m)
  round-moves ts s m fair p =
      let (t, j, q, le) = moves s m p in
      let (before, after, e) = fair.each t in
      let whole : run_steps step ts s ≡ run_steps step (t ∷ after) (run_steps step before s) =
        ap (λ us. run_steps step us s) e ∙ run_steps-append step before (t ∷ after) s in
      elim (run_steps-keeps before s (suc m) p) [
        | inl same ↦
            let (k, r, l) = at_most after (step t s) j q in
            (
              k,
              subst (λ x. P x k) (sym (whole ∙ ap (run_steps step (t ∷ after)) same)) r,
              omega arith,
            )
        | inr (i, r, lt) ↦
            let (k, u, l) = at_most (t ∷ after) (run_steps step before s) i r in
            (k, subst (λ x. P x k) (sym whole) u, omega arith)
      ]

  -- After as many fair rounds as there are moves left, the system is at its end.
  pub rounds-end :
      (tss : List (List T)) (s : S) (m : ℕ)
      → All Fair tss
      → m ≤ length tss
      → P s m
      → P (run_steps step (rounds tss) s) 0
  rounds-end [] s m fair h p = subst (P s) (omega arith) p
  rounds-end (ts ∷ tss) s zero fair h p =
      let (k, q, le) = at_most ts s zero p in
      subst (λ r. P r 0) (sym (run_steps-append step ts (rounds tss) s))
        (rounds-end tss (run_steps step ts s) k fair.1 (omega arith) q)
  rounds-end (ts ∷ tss) s (suc m) fair h p =
      let (k, q, le) = round-moves ts s m fair.0 p in
      subst (λ r. P r 0) (sym (run_steps-append step ts (rounds tss) s))
        (rounds-end tss (run_steps step ts s) k fair.1 (omega arith) q)
