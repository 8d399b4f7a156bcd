-- ===== src/Loop/Timers.antt =====
-- The timers of `Loop`, and one whole round of `run`.
use ex_netlink.Base.{
  ℕ, ◌≤◌, ◌≡◌, refl, sym, subst, ap, ap₂, ◌∙◌, ◌⊎◌, inl, inr, Option, none, some, List, [], ◌∷◌,
  ◌++◌, Bool-cases, true, false, arith, ltb, ◌>>=◌, append_assoc, ltb→lt, ltb→le, All,
}
use mathlib.Core.Option.{some-injective}
use ex_netlink.Loop.Defs.{
  Timer, Loop, Call, calls_quit, calls_run_at, calls_push_idle, calls_push_runable, push_idle,
  push_runable, quit, run_at, emplace, perform, perform_all, invoke, for_each, handle_idle,
  handle_runable, fire, handle_timer, handle_io_source, round,
}
use ex_netlink.Loop.Run.{
  SetsNoTimer, perform_all_held, flat, flat-append, due, later, IsSorted, none_due, Ran, Ran-nil,
  Ran-append, invoke-Ran, for_each-Ran, to_idle, to_runable,
}

All-emplace :
    (b : ℕ) (t : Timer) (us : List Timer)
    → b ≤ t.timestamp
    → All (λ x. b ≤ x.timestamp) us
    → All (λ x. b ≤ x.timestamp) (emplace t us)
unfolding emplace
All-emplace b t [] h hs = (h, tt)
All-emplace b t (u ∷ us) h hs = elim (Bool-cases (ltb t.timestamp u.timestamp)) [
  | inl e ↦ rw e (h, hs)
  | inr e ↦ rw e (hs.0, All-emplace b t us h hs.1)
]

All-weaken :
    (a b : ℕ) (us : List Timer)
    → a ≤ b
    → All (λ x. b ≤ x.timestamp) us
    → All (λ x. a ≤ x.timestamp) us
All-weaken a b [] h hs = tt
All-weaken a b (u ∷ us) h hs = (omega (arith, hs.0), All-weaken a b us h hs.1)

emplace-IsSorted : (t : Timer) (us : List Timer) → IsSorted us → IsSorted (emplace t us)
unfolding emplace
emplace-IsSorted t [] s = (tt, tt)
emplace-IsSorted t (u ∷ us) s = elim (Bool-cases (ltb t.timestamp u.timestamp)) [
  | inl e ↦ rw e (
    (
      omega (arith, ltb→lt _ _ e),
      All-weaken t.timestamp u.timestamp us (omega (arith, ltb→lt _ _ e)) s.0,
    ),
    s,
  )
  | inr e ↦
      rw e
        (All-emplace u.timestamp t us (omega (arith, ltb→le _ _ e)) s.0, emplace-IsSorted t us s.1)
]

-- `runAt` keeps the timers in order of time.
pub run_at-IsSorted : (l : Loop) (t f : ℕ) → IsSorted l.timer → IsSorted (run_at l t f).timer
unfolding run_at
run_at-IsSorted l t f s = emplace-IsSorted (record { timestamp = t; runnable = f }) l.timer s

perform_all_deadlock : (l : Loop) (cs : List Call) → ¬ SetsNoTimer cs → perform_all true l cs ≡ none
unfolding perform_all perform
perform_all_deadlock l [] h = absurd (h tt)
perform_all_deadlock l (calls_quit ∷ cs) h = perform_all_deadlock (quit l) cs h
perform_all_deadlock l (calls_run_at t f ∷ cs) h = refl
perform_all_deadlock l (calls_push_idle f ∷ cs) h = perform_all_deadlock (push_idle l f) cs h
perform_all_deadlock l (calls_push_runable f ∷ cs) h = perform_all_deadlock (push_runable l f) cs h

bind_none :
    (m : Option Loop) (f : Loop → Option Loop) → ((k : Loop) → f k ≡ none) → (m >>= f) ≡ none
bind_none none f h = refl
bind_none (some k) f h = h k

-- What the calls that set no timer leave alone.
abbrev Keeps : Loop → Loop → Type 0
Keeps l k = (k.timer ≡ l.timer) × (k.io_handle ≡ l.io_handle)

perform_all-Keeps :
    (l k : Loop) (cs : List Call) → SetsNoTimer cs → perform_all false l cs ≡ some k → Keeps l k
unfolding perform_all perform quit push_idle push_runable
perform_all-Keeps l k [] h e =
    let same = sym (some-injective l k e) in
    (ap (λ (m : Loop). m.timer) same, ap (λ (m : Loop). m.io_handle) same)
perform_all-Keeps l k (calls_quit ∷ cs) h e = perform_all-Keeps (quit l) k cs h e
perform_all-Keeps l k (calls_run_at t f ∷ cs) h e = absurd h
perform_all-Keeps l k (calls_push_idle f ∷ cs) h e = perform_all-Keeps (push_idle l f) k cs h e
perform_all-Keeps l k (calls_push_runable f ∷ cs) h e =
    perform_all-Keeps (push_runable l f) k cs h e

module _ (body : ℕ → List Call) where
  -- One of these callbacks sets a timer.
  abbrev pub SomeSets : List ℕ → Type 0
  SomeSets [] = ⊥
  SomeSets (f ∷ fs) = (¬ SetsNoTimer (body f)) ⊎ SomeSets fs

  invoke_held :
      (l : Loop) (f : ℕ) → SetsNoTimer (body f) → invoke body true l f ≡ invoke body false l f
  unfolding invoke
  invoke_held l f h = perform_all_held (record l { ran = l.ran ++ (f ∷ []) }) (body f) h

  fire-Ran :
      (t : ℕ) (l : Loop) (us : List Timer) (o : ℕ)
      → IsSorted us
      → All (λ f. SetsNoTimer (body f)) (due t us)
      → (k : Loop) × (fire body t l us o ≡ some k)
        × Ran body l (due t us) k
        × (k.timer ≡ later t us)
  unfolding fire
  fire-Ran t l [] o s h = (
    record l { timer = []; outtime = o },
    refl,
    record {
      logged = (Ran-nil body l).logged;
      idle_grows = (Ran-nil body l).idle_grows;
      runable_grows = (Ran-nil body l).runable_grows;
    },
    refl,
  )
  fire-Ran t l (u ∷ us) o s h = elim (Bool-cases (ltb t u.timestamp)) [
    | inl e ↦
        let (d, r) = none_due t us u.timestamp (ltb→lt _ _ e) s.0 in
        let last : Loop = record l { timer = u ∷ us; outtime = u.timestamp } in
        rw e (
          last,
          refl,
          rw d (record {
            logged = (Ran-nil body l).logged;
            idle_grows = (Ran-nil body l).idle_grows;
            runable_grows = (Ran-nil body l).runable_grows;
          }),
          ap (λ x. u ∷ x) (sym r),
        )
    | inr e ↦
        let all : SetsNoTimer (body u.runnable) × All (λ f. SetsNoTimer (body f)) (due t us) =
          rw e at h in
        let (k, i, p) = invoke-Ran body l u.runnable in
        let (m, f, q, r) = fire-Ran t k us u.timestamp s.1 all.1 in
        rw e (
          m,
          rw (invoke_held l u.runnable all.0, i) f,
          Ran-append body (u.runnable ∷ []) (due t us) p q,
          r,
        )
  ]

  -- `handle_timer` runs every timer that is due and no other, in order of time, each once, and keeps
  -- the rest, if no callback of a due timer calls `runAt`.
  handle_timer-Ran :
      (t : ℕ) (l : Loop)
      → IsSorted l.timer
      → All (λ f. SetsNoTimer (body f)) (due t l.timer)
      → (k : Loop) × (handle_timer body t l ≡ some k)
        × Ran body l (due t l.timer) k
        × (k.timer ≡ later t l.timer)
  unfolding handle_timer
  handle_timer-Ran t l s h = fire-Ran t l l.timer l.outtime s h

  fire_deadlock :
      (t : ℕ) (l : Loop) (us : List Timer) (o : ℕ)
      → IsSorted us
      → SomeSets (due t us)
      → fire body t l us o ≡ none
  unfolding fire invoke
  fire_deadlock t l [] o s h = absurd h
  fire_deadlock t l (u ∷ us) o s h = elim (Bool-cases (ltb t u.timestamp)) [
    | inl e ↦ absurd (subst SomeSets (due_nothing t u us e s) h)
    | inr e ↦ rw e (go (λ k r. fire_deadlock t k us u.timestamp s.1 r) (rw e at h))
  ]
    where
      due_nothing :
          (t : ℕ) (u : Timer) (us : List Timer)
          → ltb t u.timestamp ≡ true
          → IsSorted (u ∷ us)
          → due t (u ∷ us) ≡ []
      due_nothing t u us e s = rw e (none_due t us u.timestamp (ltb→lt _ _ e) s.0).0

      go :
          ((k : Loop) → SomeSets (due t us) → fire body t k us u.timestamp ≡ none)
          → (¬ SetsNoTimer (body u.runnable)) ⊎ SomeSets (due t us)
          → (invoke body true l u.runnable >>= λ k. fire body t k us u.timestamp) ≡ none
      go ih (inl n) =
          rw (
            perform_all_deadlock (record l { ran = l.ran ++ (u.runnable ∷ []) }) (body u.runnable)
              n)
      go ih (inr r) = bind_none (invoke body true l u.runnable) _ (λ k. ih k r)

  -- If the callback of some due timer calls `runAt`, `handle_timer` locks `time_mut_` twice.
  handle_timer_deadlock :
      (t : ℕ) (l : Loop)
      → IsSorted l.timer
      → SomeSets (due t l.timer)
      → handle_timer body t l ≡ none
  unfolding handle_timer
  handle_timer_deadlock t l s h = fire_deadlock t l l.timer l.outtime s h

  module _ (quiet : (f : ℕ) → SetsNoTimer (body f)) where
    for_each-Keeps : (l k : Loop) (fs : List ℕ) → for_each body l fs ≡ some k → Keeps l k
    unfolding for_each invoke
    for_each-Keeps l k [] e =
        let same = sym (some-injective l k e) in
        (ap (λ (m : Loop). m.timer) same, ap (λ (m : Loop). m.io_handle) same)
    for_each-Keeps l k (f ∷ fs) e =
        let (m, i, p) = invoke-Ran body l f in
        let (t, h) = for_each-Keeps m k fs (rw i at e) in
        let (t', h') =
          perform_all-Keeps (record l { ran = l.ran ++ (f ∷ []) }) m (body f) (quiet f) i in
        (t ∙ t', h ∙ h')

    All-quiet : (fs : List ℕ) → All (λ f. SetsNoTimer (body f)) fs
    All-quiet [] = tt
    All-quiet (f ∷ fs) = (quiet f, All-quiet fs)

    -- A round without a source of I/O, of callbacks that set no timers, runs the callbacks pushed by
    -- `pushRunable`, then the due timers, then those pushed by `pushIdle`, also the ones that the
    -- first two groups push in this round; a callback pushed by `pushRunable` in this round is kept
    -- for the next.
    pub round-ran :
        (io : ℕ → List Call) (t₁ t₂ : ℕ) (l : Loop)
        → l.io_handle ≡ false
        → IsSorted l.timer
        → let early = l.idle ++ due t₂ l.timer in
          let late = l.runable ++ flat (λ f. to_runable (body f)) early in
          (k : Loop) × (round body io t₁ t₂ l ≡ some k)
          × (k.ran ≡ l.ran ++ (early ++ late))
          × (k.idle ≡ flat (λ f. to_idle (body f)) (early ++ late))
          × (k.timer ≡ later t₂ l.timer)
    unfolding round handle_idle handle_io_source handle_runable
    round-ran io t₁ t₂ l no_io s =
        let l₀ : Loop = record l { idle = [] } in
        let (a, ea, pa) = for_each-Ran body l₀ l.idle in
        let (ta, ia) = for_each-Keeps l₀ a l.idle ea in
        let (c, ec, pc, tc) =
          handle_timer-Ran t₂ a (subst IsSorted (sym ta) s) (All-quiet (due t₂ a.timer)) in
        let q =
          Ran-append body l.idle (due t₂ l.timer) pa (subst (λ t. Ran body a (due t₂ t) c) ta pc) in
        let c₀ : Loop = record c { runable = [] } in
        let (d, ed, pd) = for_each-Ran body c₀ c.runable in
        let (td, id) = for_each-Keeps c₀ d c.runable ed in
        (
          d,
          rw (ea, ia ∙ no_io, ec) ed,
          pd.logged ∙ ap₂ ◌++◌ q.logged q.runable_grows ∙ append_assoc l.ran _ _,
          pd.idle_grows
              ∙ ap₂ ◌++◌ q.idle_grows (ap (flat (λ f. to_idle (body f))) q.runable_grows)
              ∙ sym (flat-append (λ f. to_idle (body f)) (l.idle ++ due t₂ l.timer) _),
          td ∙ tc ∙ ap (later t₂) ta,
        )
