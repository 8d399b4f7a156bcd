-- ===== src/Handshake/Order.antt =====
-- When a call of one thread comes after a call of another in every interleaving, because a flag
-- stands between them.
use ex_netlink.Base.{
  ℕ, zero, suc, Option, none, List, [], ◌∷◌, Bool, true, false, ◌==◌, ◌||◌, ◌≡◌, refl, sym, ap, ◌∙◌,
  if◌then◌else◌, Bool-cases, inl, inr, arith, ℕ_discrete, All,
}
use ex_netlink.Handshake.Prog.{
  Sys, Call, sys, lock, unlock, wait, store, notify_one, notify_all, start, join, Prog, done, abort,
  call,
}
use ex_netlink.Handshake.Threads.{
  Phase, unstarted, running, about_to_block, blocked, woken, Entry, Process, put, perform, resume,
  Event, runs, wakes_up, step, run_events, process, prog_at, is_none, is_done,
}

-- `P` picks the calls that come first, `Q` those that wait for them.
module _ (P Q : ℕ → Sys → Bool) where
  abbrev pub seen : List Entry → Bool
  seen [] = false
  seen (e ∷ log) = P e.line e.made || seen log

  -- Every `Q` of the log, newest first, has a `P` before it.
  abbrev pub Ordered : List Entry → Type 0
  Ordered [] = Unit
  Ordered (e ∷ log) = (Q e.line e.made ≡ true → seen log ≡ true) × Ordered log

  -- `m` is the flag between them.
  module _ (m : ℕ) where
    -- A function that stores the flag only after a `P` of its own, and makes a `Q` only after one or
    -- after it has waited for the flag. `sure` says that it has.
    abbrev pub Careful : Bool → Prog → Type 0
    Careful sure done = Unit
    Careful sure abort = Unit
    Careful sure (call (sys line s) k) =
        (Q line s ≡ true → sure ≡ true) × ((a : Option ℕ) → Careful (P line s || sure) (k a))
    Careful sure (call (wait l) k) = (a : Option ℕ) → Careful (l == m || sure) (k a)
    Careful sure (call (store l) k) = (l ≡ m → sure ≡ true) × ((a : Option ℕ) → Careful sure (k a))
    Careful sure (call (lock l) k) = (a : Option ℕ) → Careful sure (k a)
    Careful sure (call (unlock l) k) = (a : Option ℕ) → Careful sure (k a)
    Careful sure (call (notify_one l) k) = (a : Option ℕ) → Careful sure (k a)
    Careful sure (call (notify_all l) k) = (a : Option ℕ) → Careful sure (k a)
    Careful sure (call (start l) k) = (a : Option ℕ) → Careful sure (k a)
    Careful sure (call (join l) k) = (a : Option ℕ) → Careful sure (k a)

    abbrev CarefulNow : List Entry → Prog → Type 0
    CarefulNow log p = (sure : Bool) × (sure ≡ true → seen log ≡ true) × Careful sure p

    -- What holds of a reachable process, by the flag, the log and the functions.
    record Safe (flag : Bool) (log : List Entry) (progs : ℕ → Prog) : Type 0 where
      flagged : flag ≡ true → seen log ≡ true
      ordered : Ordered log
      careful : (i : ℕ) → CarefulNow log (progs i)

    abbrev SafeAt : Process → Type 0
    SafeAt p = Safe (p.flags m) p.log p.progs

    -- A thread that goes on without a call that is logged.
    goes_on-CarefulNow :
        (log : List Entry) (progs : ℕ → Prog) (i : ℕ) (rest : Prog)
        → ((j : ℕ) → CarefulNow log (progs j))
        → CarefulNow log rest
        → (j : ℕ) → CarefulNow log (put progs i rest j)
    goes_on-CarefulNow log progs i rest all new j = elim (Bool-cases (j == i)) [
      | inl h ↦ rw h new
      | inr h ↦ rw h (all j)
    ]

    goes_on-Safe :
        {flag : Bool} {log : List Entry} {progs : ℕ → Prog} (i : ℕ) (rest : Prog)
        → Safe flag log progs
        → CarefulNow log rest
        → Safe flag log (put progs i rest)
    goes_on-Safe {flag} {log} {progs} i rest v new = record {
      flagged = v.flagged;
      ordered = v.ordered;
      careful = goes_on-CarefulNow log progs i rest v.careful new;
    }

    pub or_right : (b c : Bool) → c ≡ true → (b || c) ≡ true
    or_right true c h = refl
    or_right false c h = h

    or_seen :
        (b sure : Bool) (log : List Entry)
        → (sure ≡ true → seen log ≡ true)
        → (b || sure) ≡ true
        → (b || seen log) ≡ true
    or_seen true sure log h t = refl
    or_seen false sure log h t = h t

    -- The log only grows.
    grown-CarefulNow :
        (e : Entry) (log : List Entry) (p : Prog) → CarefulNow log p → CarefulNow (e ∷ log) p
    grown-CarefulNow e log p (sure, h, c) =
        (sure, λ t. or_right (P e.line e.made) (seen log) (h t), c)

    logged-Safe :
        {flag : Bool} {log : List Entry} {progs : ℕ → Prog} (e : Entry) (i : ℕ) (rest : Prog)
        (sure : Bool)
        → Safe flag log progs
        → (sure ≡ true → seen log ≡ true)
        → (Q e.line e.made ≡ true → sure ≡ true)
        → Careful (P e.line e.made || sure) rest
        → Safe flag (e ∷ log) (put progs i rest)
    logged-Safe {flag} {log} {progs} e i rest sure v h q c = record {
      flagged = λ t. or_right (P e.line e.made) (seen log) (v.flagged t);
      ordered = (λ t. h (q t), v.ordered);
      careful =
          goes_on-CarefulNow (e ∷ log) progs i rest
            (λ j. grown-CarefulNow e log (progs j) (v.careful j))
            (P e.line e.made || sure, or_seen (P e.line e.made) sure log h, c);
    }

    -- Past a `wait`, which sees the flag set.
    waited-CarefulNow :
        (p : Process) (l : ℕ) (sure : Bool) (rest : Prog)
        → SafeAt p
        → p.flags l ≡ true
        → (sure ≡ true → seen p.log ≡ true)
        → Careful (l == m || sure) rest
        → CarefulNow p.log rest
    waited-CarefulNow p l sure rest v set h c = (l == m || sure, is_seen, c)
      where
        is_seen : (l == m || sure) ≡ true → seen p.log ≡ true
        is_seen t = elim (ℕ_discrete l m) [
          | yes e ↦ v.flagged (ap p.flags (sym e) ∙ set)
          | no n ↦ h (ground arith)
        ]

    stored-flag :
        (flags : ℕ → Bool) (l : ℕ) (sure : Bool) (log : List Entry)
        → (flags m ≡ true → seen log ≡ true)
        → (sure ≡ true → seen log ≡ true)
        → (l ≡ m → sure ≡ true)
        → put flags l true m ≡ true
        → seen log ≡ true
    stored-flag flags l sure log f h q t = elim (ℕ_discrete l m) [
      | yes e ↦ h (q e)
      | no n ↦ f (ground arith)
    ]

    if-Safe : (b : Bool) (p q : Process) → SafeAt p → SafeAt q → SafeAt (if b then p else q)
    if-Safe true p q v w = v
    if-Safe false p q v w = w

    perform-Safe :
        (p : Process) (i : ℕ) (a : Option ℕ) (pick : ℕ) (c : Call) (k : Option ℕ → Prog)
        → SafeAt p
        → CarefulNow p.log (call c k)
        → SafeAt (perform p i a pick c k)
    unfolding perform
    perform-Safe p i a pick (sys line s) k v (sure, h, (q, rest)) =
        logged-Safe _ i (k a) sure v h q (rest a)
    perform-Safe p i a pick (lock l) k v (sure, h, rest) =
        if-Safe (is_none (p.owner l)) _ _ (goes_on-Safe i (k none) v (sure, h, rest none)) v
    perform-Safe p i a pick (unlock l) k v (sure, h, rest) =
        goes_on-Safe i (k none) v (sure, h, rest none)
    perform-Safe p i a pick (wait l) k v (sure, h, rest) = elim (Bool-cases (p.flags l)) [
      | inl e ↦
          rw e (goes_on-Safe i (k none) v (waited-CarefulNow p l sure (k none) v e h (rest none)))
      | inr e ↦ rw e v
    ]
    perform-Safe p i a pick (store l) k v (sure, h, (q, rest)) = record {
      flagged = stored-flag p.flags l sure p.log v.flagged h q;
      ordered = v.ordered;
      careful = goes_on-CarefulNow p.log p.progs i (k none) v.careful (sure, h, rest none);
    }
    perform-Safe p i a pick (notify_one l) k v (sure, h, rest) =
        goes_on-Safe i (k none) v (sure, h, rest none)
    perform-Safe p i a pick (notify_all l) k v (sure, h, rest) =
        goes_on-Safe i (k none) v (sure, h, rest none)
    perform-Safe p i a pick (start l) k v (sure, h, rest) =
        goes_on-Safe i (k none) v (sure, h, rest none)
    perform-Safe p i a pick (join l) k v (sure, h, rest) =
        if-Safe (is_done (p.progs l)) _ _ (goes_on-Safe i (k none) v (sure, h, rest none)) v

    resume-Safe :
        (p : Process) (i : ℕ) (a : Option ℕ) (pick : ℕ) (h : Phase) (rest : Prog)
        → SafeAt p
        → CarefulNow p.log rest
        → SafeAt (resume p i a pick h rest)
    unfolding resume
    resume-Safe p i a pick unstarted rest v c = v
    resume-Safe p i a pick running done v c = v
    resume-Safe p i a pick running abort v c = v
    resume-Safe p i a pick running (call d k) v c = perform-Safe p i a pick d k v c
    resume-Safe p i a pick (about_to_block l) rest v c = v
    resume-Safe p i a pick (blocked l) rest v c = v
    resume-Safe p i a pick (woken l) rest v c = if-Safe (is_none (p.owner l)) _ _ v v

    step-Safe : (e : Event) (p : Process) → SafeAt p → SafeAt (step e p)
    unfolding step
    step-Safe (runs i a pick) p v =
        if-Safe p.aborted _ _ v (resume-Safe p i a pick (p.phases i) (p.progs i) v (v.careful i))
    step-Safe (wakes_up i l) p v = v

    run-Safe : (es : List Event) (p : Process) → SafeAt p → SafeAt (run_events es p)
    run-Safe [] p v = v
    run-Safe (e ∷ es) p v = run-Safe es (step e p) (step-Safe e p v)

    prog_at-Careful :
        (ps : List Prog) → All (Careful false) ps → (i : ℕ) → Careful false (prog_at ps i)
    prog_at-Careful [] h i = tt
    prog_at-Careful (p ∷ ps) h zero = h.0
    prog_at-Careful (p ∷ ps) h (suc i) = prog_at-Careful ps h.1 i

    -- Where every function is careful, every interleaving is in order.
    pub run_events-Ordered :
        (ps : List Prog) (es : List Event)
        → All (Careful false) ps
        → Ordered (run_events es (process ps)).log
    unfolding process
    run_events-Ordered ps es h =
        (run-Safe es (process ps) (record {
          flagged = λ t. absurd (ground (arith, t));
          ordered = tt;
          careful = λ i. (false, λ t. absurd (ground (arith, t)), prog_at-Careful ps h i);
        })).ordered
