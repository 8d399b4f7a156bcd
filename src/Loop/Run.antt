-- ===== src/Loop/Run.antt =====
-- What `Loop` runs, and in which order.
use ex_netlink.Base.{
  ℕ, ◌≤◌, ◌<◌, ◌≡◌, refl, sym, ap, ◌∙◌, some, List, [], ◌∷◌, ◌++◌, true, false, arith, ltb,
  if◌then◌else◌, append_assoc, append-nil, lt→ltb, All,
}
use ex_netlink.Loop.Defs.{
  Timer, Loop, Call, calls_quit, calls_run_at, calls_push_idle, calls_push_runable, push_idle,
  push_runable, quit, run_at, perform, perform_all, invoke, for_each,
}

-- The callbacks that a list of calls adds to each of the loop's two lists.
abbrev pub to_idle : List Call → List ℕ
to_idle [] = []
to_idle (calls_push_runable f ∷ cs) = f ∷ to_idle cs
to_idle (calls_push_idle f ∷ cs) = to_idle cs
to_idle (calls_quit ∷ cs) = to_idle cs
to_idle (calls_run_at t f ∷ cs) = to_idle cs

abbrev pub to_runable : List Call → List ℕ
to_runable [] = []
to_runable (calls_push_idle f ∷ cs) = f ∷ to_runable cs
to_runable (calls_push_runable f ∷ cs) = to_runable cs
to_runable (calls_quit ∷ cs) = to_runable cs
to_runable (calls_run_at t f ∷ cs) = to_runable cs

-- No call of `runAt` among them.
abbrev pub SetsNoTimer : List Call → Type 0
SetsNoTimer [] = Unit
SetsNoTimer (calls_run_at t f ∷ cs) = ⊥
SetsNoTimer (calls_push_idle f ∷ cs) = SetsNoTimer cs
SetsNoTimer (calls_push_runable f ∷ cs) = SetsNoTimer cs
SetsNoTimer (calls_quit ∷ cs) = SetsNoTimer cs

-- What a list of calls leaves of the loop, whatever the callbacks are.
pub record Performed (l : Loop) (cs : List Call) (k : Loop) : Type 0 where
  pub idle_grows : k.idle ≡ l.idle ++ to_idle cs
  pub runable_grows : k.runable ≡ l.runable ++ to_runable cs
  pub same_ran : k.ran ≡ l.ran
  pub same_outtime : k.outtime ≡ l.outtime

pub perform_all-Performed :
    (l : Loop) (cs : List Call) → (k : Loop) × (perform_all false l cs ≡ some k) × Performed l cs k
unfolding perform_all perform quit run_at push_idle push_runable
perform_all-Performed l [] = (
  l,
  refl,
  record {
    idle_grows = sym (append-nil l.idle);
    runable_grows = sym (append-nil l.runable);
    same_ran = refl;
    same_outtime = refl;
  },
)
perform_all-Performed l (calls_quit ∷ cs) =
    let (k, e, p) = perform_all-Performed (quit l) cs in
    (
      k,
      e,
      record {
        idle_grows = p.idle_grows;
        runable_grows = p.runable_grows;
        same_ran = p.same_ran;
        same_outtime = p.same_outtime;
      },
    )
perform_all-Performed l (calls_run_at t f ∷ cs) =
    let (k, e, p) = perform_all-Performed (run_at l t f) cs in
    (
      k,
      e,
      record {
        idle_grows = p.idle_grows;
        runable_grows = p.runable_grows;
        same_ran = p.same_ran;
        same_outtime = p.same_outtime;
      },
    )
perform_all-Performed l (calls_push_idle f ∷ cs) =
    let (k, e, p) = perform_all-Performed (push_idle l f) cs in
    (
      k,
      e,
      record {
        idle_grows = p.idle_grows;
        runable_grows = p.runable_grows ∙ append_assoc l.runable (f ∷ []) (to_runable cs);
        same_ran = p.same_ran;
        same_outtime = p.same_outtime;
      },
    )
perform_all-Performed l (calls_push_runable f ∷ cs) =
    let (k, e, p) = perform_all-Performed (push_runable l f) cs in
    (
      k,
      e,
      record {
        idle_grows = p.idle_grows ∙ append_assoc l.idle (f ∷ []) (to_idle cs);
        runable_grows = p.runable_grows;
        same_ran = p.same_ran;
        same_outtime = p.same_outtime;
      },
    )

-- Without `runAt`, holding `time_mut_` makes no difference.
pub perform_all_held :
    (l : Loop) (cs : List Call) → SetsNoTimer cs → perform_all true l cs ≡ perform_all false l cs
unfolding perform_all perform
perform_all_held l [] h = refl
perform_all_held l (calls_quit ∷ cs) h = perform_all_held (quit l) cs h
perform_all_held l (calls_run_at t f ∷ cs) h = absurd h
perform_all_held l (calls_push_idle f ∷ cs) h = perform_all_held (push_idle l f) cs h
perform_all_held l (calls_push_runable f ∷ cs) h = perform_all_held (push_runable l f) cs h

abbrev pub flat : (ℕ → List ℕ) → List ℕ → List ℕ
flat g [] = []
flat g (x ∷ xs) = g x ++ flat g xs

pub flat-append : (g : ℕ → List ℕ) (xs ys : List ℕ) → flat g (xs ++ ys) ≡ flat g xs ++ flat g ys
flat-append g [] ys = refl
flat-append g (x ∷ xs) ys =
    rw (flat-append g xs ys) (sym (append_assoc (g x) (flat g xs) (flat g ys)))

-- The timers that are due at a time, and those that are not.
abbrev pub due : ℕ → List Timer → List ℕ
due t [] = []
due t (u ∷ us) = if ltb t u.timestamp then due t us else u.runnable ∷ due t us

abbrev pub later : ℕ → List Timer → List Timer
later t [] = []
later t (u ∷ us) = if ltb t u.timestamp then u ∷ later t us else later t us

abbrev pub IsSorted : List Timer → Type 0
IsSorted [] = Unit
IsSorted (u ∷ us) = All (λ x. u.timestamp ≤ x.timestamp) us × IsSorted us

pub none_due :
    (t : ℕ) (us : List Timer) (b : ℕ)
    → t < b
    → All (λ x. b ≤ x.timestamp) us
    → (due t us ≡ []) × (later t us ≡ us)
none_due t [] b lt h = (refl, refl)
none_due t (u ∷ us) b lt h =
    let (d, l) = none_due t us b lt h.1 in
    rw (lt→ltb t u.timestamp (omega (arith, h.0))) (d, ap (λ r. u ∷ r) l)

module _ (body : ℕ → List Call) where
  -- What running the callbacks `fs` in this order leaves of the loop.
  pub record Ran (l : Loop) (fs : List ℕ) (k : Loop) : Type 0 where
    pub logged : k.ran ≡ l.ran ++ fs
    pub idle_grows : k.idle ≡ l.idle ++ flat (λ f. to_idle (body f)) fs
    pub runable_grows : k.runable ≡ l.runable ++ flat (λ f. to_runable (body f)) fs

  pub Ran-nil : (l : Loop) → Ran l [] l
  Ran-nil l = record {
    logged = sym (append-nil l.ran);
    idle_grows = sym (append-nil l.idle);
    runable_grows = sym (append-nil l.runable);
  }

  pub Ran-append : {l k m : Loop} (fs gs : List ℕ) → Ran l fs k → Ran k gs m → Ran l (fs ++ gs) m
  Ran-append {l} fs gs p q = record {
    logged = q.logged ∙ ap (λ r. r ++ gs) p.logged ∙ append_assoc l.ran fs gs;
    idle_grows =
        q.idle_grows
        ∙ ap (λ r. r ++ flat (λ f. to_idle (body f)) gs) p.idle_grows
        ∙ append_assoc l.idle (flat (λ f. to_idle (body f)) fs) (flat (λ f. to_idle (body f)) gs)
        ∙ ap (λ r. l.idle ++ r) (sym (flat-append (λ f. to_idle (body f)) fs gs));
    runable_grows =
        q.runable_grows
        ∙ ap (λ r. r ++ flat (λ f. to_runable (body f)) gs) p.runable_grows
        ∙ append_assoc l.runable (flat (λ f. to_runable (body f)) fs)
            (flat (λ f. to_runable (body f)) gs)
        ∙ ap (λ r. l.runable ++ r) (sym (flat-append (λ f. to_runable (body f)) fs gs));
  }

  pub invoke-Ran :
      (l : Loop) (f : ℕ) → (k : Loop) × (invoke body false l f ≡ some k) × Ran l (f ∷ []) k
  unfolding invoke
  invoke-Ran l f =
      let (k, e, p) = perform_all-Performed (record l { ran = l.ran ++ (f ∷ []) }) (body f) in
      (
        k,
        e,
        record {
          logged = p.same_ran;
          idle_grows = p.idle_grows ∙ ap (λ r. l.idle ++ r) (sym (append-nil (to_idle (body f))));
          runable_grows =
              p.runable_grows ∙ ap (λ r. l.runable ++ r) (sym (append-nil (to_runable (body f))));
        },
      )

  pub for_each-Ran :
      (l : Loop) (fs : List ℕ) → (k : Loop) × (for_each body l fs ≡ some k) × Ran l fs k
  unfolding for_each
  for_each-Ran l [] = (l, refl, Ran-nil l)
  for_each-Ran l (f ∷ fs) =
      let (k, e, p) = invoke-Ran l f in
      let (m, r, q) = for_each-Ran k fs in (m, rw e r, Ran-append (f ∷ []) fs p q)
