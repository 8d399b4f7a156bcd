-- ===== src/Inotify/Walk.antt =====
-- The watcher reports every event that it reads, and its loops end.
use ex_netlink.Base.{
  ℕ, zero, suc, ◌+◌, ◌-◌, ◌≤◌, ◌<◌, ◌≡◌, refl, ap, inl, inr, Option, none, some, List, [], ◌∷◌,
  ◌++◌, append-nil, Bool, Bool-cases, true, arith, ltb, le→ltb,
}
use ex_netlink.Inotify.Defs.{event_size, Flag, Line, report, walk, read_events, handle, pass}

module _ (event_len : ℕ → ℕ) (has : ℕ → Flag → Bool) (event_name : ℕ → List ℕ) where
  -- The indices of the events from one on, each behind the one before, up to the end.
  pub data Events (len : ℕ) : ℕ → List ℕ → Type 0 where
    ends : {i : ℕ} → len ≤ i → Events len i []
    goes_on :
        {i : ℕ} {is : List ℕ}
        → i < len
        → Events len (i + (event_size + event_len i)) is
        → Events len i (i ∷ is)

  abbrev pub reports : List ℕ → List Line
  reports [] = []
  reports (i ∷ is) = report event_len has event_name i ++ reports is

  walk-Events :
      (fuel len i : ℕ)
      → len - i < fuel
      → (is : List ℕ) × (j : ℕ) × Events len i is
        × (i ≤ j)
        × (walk event_len has event_name fuel len i ≡ some (j, reports is))
  unfolding walk
  walk-Events zero len i h = absurd (omega arith)
  walk-Events (suc fuel) len i h = elim (Bool-cases (ltb i len)) [
    | inl e ↦
        let inside : i < len = ground (arith, e) in
        let (is, j, m, le, w) =
          walk-Events fuel len (i + (event_size + event_len i)) (omega arith) in
        (i ∷ is, j, goes_on inside m, omega arith, rw (e, w) refl)
    | inr e ↦ ([], i, ends (ground (arith, e)), omega arith, rw e refl)
  ]

  read_events-index :
      (i : ℕ) (read : Option ℕ)
      → (j : ℕ) × (lines : List Line) × (i ≤ j)
        × (read_events event_len has event_name i read ≡ some (j, lines))
  unfolding read_events
  read_events-index i none = (i, [], omega arith, refl)
  read_events-index i (some len) =
      let (is, j, m, le, w) = walk-Events (suc len) len i (omega arith) in (j, reports is, le, w)

  module _ (readable : ℕ → Bool) (read : ℕ → Option ℕ) where
    handle-index :
        (i : ℕ)
        → (j : ℕ) × (lines : List Line) × (i ≤ j)
          × (handle event_len has event_name readable read i ≡ some (j, lines))
    unfolding handle
    handle-index i = elim (Bool-cases (readable i)) [
      | inl h ↦
          let (j, lines, le, e) = read_events-index i (read i) in (j, lines, le, rw (h, e) refl)
      | inr h ↦ (i, [], omega arith, rw h refl)
    ]

    -- Each turn of the `for` loop raises the index, so that it ends.
    pub pass-ends :
        (fuel nfds i : ℕ)
        → nfds - i < fuel
        → (lines : List Line) × (pass event_len has event_name readable read fuel nfds i
            ≡ some lines)
    unfolding pass
    pass-ends zero nfds i h = absurd (omega arith)
    pass-ends (suc fuel) nfds i h = elim (Bool-cases (ltb i nfds)) [
      | inl b ↦
          let inside : i < nfds = ground (arith, b) in
          let (j, lines, le, e) = handle-index i in
          let (more, f) = pass-ends fuel nfds (suc j) (omega arith) in
          (lines ++ more, rw (b, e, f) refl)
      | inr b ↦ ([], rw b refl)
    ]

    -- Where epoll_wait(2) gives one event, as it does for the one descriptor that is registered, and
    -- read(2) gives `len` bytes, the loops end, and print what there is to say of each event of these
    -- bytes, from the first one on, in order.
    pub pass-Events :
        (len : ℕ)
        → readable 0 ≡ true
        → read 0 ≡ some len
        → (is : List ℕ) × Events len 0 is
          × (pass event_len has event_name readable read 2 1 0 ≡ some (reports is))
    unfolding pass handle read_events
    pass-Events len h e =
        let (is, j, m, le, w) = walk-Events (suc len) len 0 (omega arith) in
        let handled : handle event_len has event_name readable read 0 ≡ some (j, reports is) =
          rw (h, e) w in
        (is, m, rw (handled, le→ltb (suc j) 1 (omega arith)) (ap some (append-nil (reports is))))
