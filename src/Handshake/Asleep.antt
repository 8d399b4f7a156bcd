-- ===== src/Handshake/Asleep.antt =====
-- A thread that is blocked where nobody will notify it stays blocked.
use ex_netlink.Base.{
  ℕ, Option, none, some, List, [], ◌∷◌, Bool, true, false, ◌==◌, ◌<◌, ◌≡◌, ◌≢◌, sym, subst, ap, ◌∙◌,
  if◌then◌else◌, Bool-cases, inl, inr, arith, All, ℕ_discrete,
}
use ex_netlink.Handshake.Prog.{
  Call, sys, lock, unlock, wait, store, notify_one, notify_all, start, join, Prog, reports, asserts,
  done, abort, call,
}
use ex_netlink.Handshake.Threads.{
  Phase, unstarted, running, about_to_block, blocked, woken, Process, put, wake, chosen, is_none,
  is_done, perform, resume, Event, runs, wakes_up, step, run_events,
}

-- The thread `i` of `n` threads is blocked on `m`.
module _ (i m n : ℕ) where
  -- A function that neither notifies `m` nor starts the thread.
  abbrev pub Silent : Prog → Type 0
  Silent done = Unit
  Silent abort = Unit
  Silent (call (sys line s) k) = (a : Option ℕ) → Silent (k a)
  Silent (call (lock l) k) = (a : Option ℕ) → Silent (k a)
  Silent (call (unlock l) k) = (a : Option ℕ) → Silent (k a)
  Silent (call (wait l) k) = (a : Option ℕ) → Silent (k a)
  Silent (call (store l) k) = (a : Option ℕ) → Silent (k a)
  Silent (call (notify_one l) k) = (l ≢ m) × ((a : Option ℕ) → Silent (k a))
  Silent (call (notify_all l) k) = (l ≢ m) × ((a : Option ℕ) → Silent (k a))
  Silent (call (start l) k) = (l ≢ i) × ((a : Option ℕ) → Silent (k a))
  Silent (call (join l) k) = (a : Option ℕ) → Silent (k a)

  pub record Missed (phases : ℕ → Phase) (progs : ℕ → Prog) : Type 0 where
    pub asleep : phases i ≡ blocked m
    pub silent : (j : ℕ) → j < n → j ≢ i → Silent (progs j)

  abbrev pub MissedAt : Process → Type 0
  MissedAt p = Missed p.phases p.progs

  -- A step of one of the threads, or a wake-up of another one without a notification.
  abbrev pub NotSpurious : Event → Type 0
  NotSpurious (runs j a pick) = j < n
  NotSpurious (wakes_up j l) = j ≢ i

  if-Missed : (b : Bool) (p q : Process) → MissedAt p → MissedAt q → MissedAt (if b then p else q)
  if-Missed true p q v w = v
  if-Missed false p q v w = w

  put_other : (phases : ℕ → Phase) (j : ℕ) (h : Phase) → j ≢ i → put phases j h i ≡ phases i
  put_other phases j h ne = ground arith

  goes_on-Missed :
      {phases : ℕ → Phase} {progs : ℕ → Prog} (j : ℕ) (rest : Prog)
      → Missed phases progs
      → Silent rest
      → Missed phases (put progs j rest)
  goes_on-Missed {phases} {progs} j rest v c = record { asleep = v.asleep; silent = still }
    where
      still : (l : ℕ) → l < n → l ≢ i → Silent (put progs j rest l)
      still l lt ne = elim (Bool-cases (l == j)) [
        | inl h ↦ rw h c
        | inr h ↦ rw h (v.silent l lt ne)
      ]

  phase-Missed :
      {phases : ℕ → Phase} {progs : ℕ → Prog} (j : ℕ) (h : Phase)
      → j ≢ i
      → Missed phases progs
      → Missed (put phases j h) progs
  phase-Missed {phases} j h ne v = record {
    asleep = put_other phases j h ne ∙ v.asleep;
    silent = v.silent;
  }

  -- A notification of another condition variable.
  wake-blocked : (l : ℕ) → l ≢ m → wake l (blocked m) ≡ blocked m
  wake-blocked l ne = ground arith

  woken_one :
      (phases : ℕ → Phase) (l : ℕ)
      → l ≢ m
      → phases i ≡ blocked m
      → (j : ℕ) → put phases j (wake l (phases j)) i ≡ blocked m
  woken_one phases l ne asleep j = elim (ℕ_discrete j i) [
    | yes e ↦ ap (λ x. put phases x (wake l (phases x)) i) e ∙ same
    | no ne ↦ put_other phases j (wake l (phases j)) ne ∙ asleep
  ]
    where
      same : put phases i (wake l (phases i)) i ≡ blocked m
      same = ground (arith, asleep, wake-blocked l ne)

  perform-Missed :
      (p : Process) (j : ℕ) (a : Option ℕ) (pick : ℕ) (c : Call) (k : Option ℕ → Prog)
      → j ≢ i
      → MissedAt p
      → Silent (call c k)
      → MissedAt (perform p j a pick c k)
  unfolding perform
  perform-Missed p j a pick (sys line s) k ne v c = goes_on-Missed j (k a) v (c a)
  perform-Missed p j a pick (lock l) k ne v c =
      if-Missed (is_none (p.owner l)) _ _ (goes_on-Missed j (k none) v (c none)) v
  perform-Missed p j a pick (unlock l) k ne v c = goes_on-Missed j (k none) v (c none)
  perform-Missed p j a pick (wait l) k ne v c =
      if-Missed (p.flags l) _ _ (goes_on-Missed j (k none) v (c none))
        (phase-Missed j (about_to_block l) ne v)
  perform-Missed p j a pick (store l) k ne v c = goes_on-Missed j (k none) v (c none)
  perform-Missed p j a pick (notify_one l) k ne v (other, c) =
      goes_on-Missed j (k none)
        (record {
          asleep = woken_one p.phases l other v.asleep (chosen p.phases l pick p.count);
          silent = v.silent;
        })
        (c none)
  perform-Missed p j a pick (notify_all l) k ne v (other, c) =
      goes_on-Missed j (k none)
        (record { asleep = ap (wake l) v.asleep ∙ wake-blocked l other; silent = v.silent })
        (c none)
  perform-Missed p j a pick (start l) k ne v (other, c) =
      goes_on-Missed j (k none) (phase-Missed l running other v) (c none)
  perform-Missed p j a pick (join l) k ne v c =
      if-Missed (is_done (p.progs l)) _ _ (goes_on-Missed j (k none) v (c none)) v

  resume-Missed :
      (p : Process) (j : ℕ) (a : Option ℕ) (pick : ℕ) (h : Phase) (rest : Prog)
      → j ≢ i
      → MissedAt p
      → Silent rest
      → MissedAt (resume p j a pick h rest)
  unfolding resume
  resume-Missed p j a pick unstarted rest ne v c = v
  resume-Missed p j a pick running done ne v c = v
  resume-Missed p j a pick running abort ne v c = v
  resume-Missed p j a pick running (call d k) ne v c = perform-Missed p j a pick d k ne v c
  resume-Missed p j a pick (about_to_block l) rest ne v c = phase-Missed j (blocked l) ne v
  resume-Missed p j a pick (blocked l) rest ne v c = v
  resume-Missed p j a pick (woken l) rest ne v c =
      if-Missed (is_none (p.owner l)) _ _ (phase-Missed j running ne v) v

  -- A step of the thread itself leaves it asleep.
  self-Missed :
      (p : Process) (a : Option ℕ) (pick : ℕ) (h : Phase)
      → h ≡ blocked m
      → MissedAt p
      → MissedAt (resume p i a pick h (p.progs i))
  unfolding resume
  self-Missed p a pick h e v = rw e v

  step-Missed : (e : Event) (p : Process) → NotSpurious e → MissedAt p → MissedAt (step e p)
  unfolding step
  step-Missed (runs j a pick) p lt v = if-Missed p.aborted _ _ v (elim (ℕ_discrete j i) [
    | yes e ↦
        subst (λ x. MissedAt (resume p x a pick (p.phases x) (p.progs x))) (sym e)
          (self-Missed p a pick (p.phases i) v.asleep v)
    | no ne ↦ resume-Missed p j a pick (p.phases j) (p.progs j) ne v (v.silent j lt ne)
  ])
  step-Missed (wakes_up j l) p ne v = phase-Missed j (wake l (p.phases j)) ne v

  pub run-Missed :
      (es : List Event) (p : Process) → All NotSpurious es → MissedAt p → MissedAt (run_events es p)
  run-Missed [] p r v = v
  run-Missed (e ∷ es) p r v = run-Missed es (step e p) r.1 (step-Missed e p r.0 v)

  pub reports-Silent :
      (a : Option ℕ) (line : ℕ) (k : Option ℕ → Prog)
      → ((b : Option ℕ) → Silent (k b))
      → Silent (reports a line k)
  reports-Silent none line k h = h
  reports-Silent (some x) line k h = h none

  pub asserts-Silent :
      (a : Option ℕ) (k : Option ℕ → Prog) → ((b : Option ℕ) → Silent (k b)) → Silent (asserts a k)
  asserts-Silent none k h = tt
  asserts-Silent (some x) k h = h none
