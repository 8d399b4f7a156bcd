-- ===== src/UnixSocket/Serve.antt =====
-- What a pass of the second process does to its connections.
use ex_netlink.Base.{
  ℕ, zero, suc, ◌+◌, ◌≤◌, ◌≡◌, refl, sym, ap, ap₂, inl, inr, Option, none, some, List, [], ◌∷◌,
  ◌++◌, Bool, Bool-cases, true, false, ◌||◌, if◌then◌else◌, total, total-append, arith,
}
use ex_netlink.UnixSocket.Child.{
  Entry, Read, Action, message, responds, closes, respond, handle_read, handle_entry, handle_all,
  child_pass, decrement, Recvmsg, recv_fd,
}

abbrev pub is_open : Entry → ℕ
is_open s = elim s.fd [ none ↦ 0 | some f ↦ 1 ]

abbrev pub closed : Action → ℕ
closed (message f) = 0
closed (responds f) = 0
closed (closes f) = 1

-- An open entry with a bit set.
abbrev pub is_ready : Entry → ℕ
is_ready s = elim s.fd [ none ↦ 0 | some f ↦ if s.pollin || s.pollout then 1 else 0 ]

module _ (reads : ℕ → Read) where
  -- The loop without its early exit.
  abbrev pub handle_each : List Entry → List Entry × List Action
  handle_each [] = ([], [])
  handle_each (s ∷ ss) =
      let (t, a, counts) = handle_entry reads s.fd s in
      let (ts, b) = handle_each ss in (t ∷ ts, a ++ b)

  handle_entry-idle :
      (o : Option ℕ) (s : Entry)
      → s.fd ≡ o
      → is_ready s ≡ 0
      → handle_entry reads o s ≡ (s, [], false)
  unfolding handle_entry
  handle_entry-idle none s e h = refl
  handle_entry-idle (some f) s e h = ground arith

  handle_entry-counts :
      (o : Option ℕ) (s : Entry)
      → s.fd ≡ o
      → (if (handle_entry reads o s).2 then 1 else 0) ≤ is_ready s
  unfolding handle_entry handle_read respond
  handle_entry-counts o s e = ground arith

  handle_each-idle : (ss : List Entry) → total is_ready ss ≡ 0 → handle_each ss ≡ (ss, [])
  handle_each-idle [] h = refl
  handle_each-idle (s ∷ ss) h =
      ap₂
        (λ (r : Entry × List Action × Bool) (q : List Entry × List Action). (r.0 ∷ q.0, r.1 ++ q.1))
        (handle_entry-idle s.fd s refl (omega arith)) (handle_each-idle ss (omega arith))

  -- If at most `n` entries are ready, the loop that stops when it has counted `n` answers does what
  -- the loop over all entries does.
  pub handle_all-each :
      (n : ℕ) (ss : List Entry)
      → total is_ready ss ≤ n
      → handle_all reads (some n) ss ≡ handle_each ss
  unfolding handle_all
  handle_all-each n [] h = refl
  handle_all-each zero (s ∷ ss) h = sym (handle_each-idle (s ∷ ss) (omega arith))
  handle_all-each (suc n) (s ∷ ss) h =
      let r = handle_entry reads s.fd s in
      let counts = handle_entry-counts s.fd s refl in
      elim (Bool-cases r.2) [
        | inl c ↦ rw c (
            ap (λ (q : List Entry × List Action). (r.0 ∷ q.0, r.1 ++ q.1))
              (handle_all-each n ss (omega (arith, rw c at counts))))
        | inr c ↦ rw c (
            ap (λ (q : List Entry × List Action). (r.0 ∷ q.0, r.1 ++ q.1))
              (handle_all-each (suc n) ss (omega arith)))
      ]

  handle_entry-open :
      (o : Option ℕ) (s : Entry)
      → s.fd ≡ o
      → is_open (handle_entry reads o s).0 + total closed (handle_entry reads o s).1 ≡ is_open s
  unfolding handle_entry handle_read respond
  handle_entry-open o s e = ground arith

  handle_all-open :
      (left : Option ℕ) (ss : List Entry)
      → total is_open (handle_all reads left ss).0 + total closed (handle_all reads left ss).1
        ≡ total is_open ss
  unfolding handle_all
  handle_all-open left [] = refl
  handle_all-open (some zero) (s ∷ ss) = omega arith
  handle_all-open (some (suc n)) (s ∷ ss) =
      let (t, a, counts) = handle_entry reads s.fd s in
      let next : Option ℕ = if counts then some n else some (suc n) in
      omega (
        arith,
        handle_entry-open s.fd s refl,
        handle_all-open next ss,
        total-append closed a (handle_all reads next ss).1,
      )
  handle_all-open none (s ∷ ss) = omega (
    arith,
    handle_entry-open s.fd s refl,
    handle_all-open none ss,
    total-append closed (handle_entry reads s.fd s).1 (handle_all reads none ss).1,
  )

  -- A pass in which `recv_fd` does not exit: the number of open connections grows by one if a
  -- descriptor has come, and shrinks by one for each that is closed.
  pub child_pass-open :
      (answers : Option ℕ) (comes : Bool) (received : Recvmsg) (f : ℕ) (ss : List Entry)
      → recv_fd received ≡ some f
      → (r : List Entry × List Action) × (child_pass reads answers comes received ss ≡ some r)
        × (total is_open r.0 + total closed r.1 ≡ total is_open ss + (if comes then 1 else 0))
  unfolding child_pass
  child_pass-open answers false received f ss h =
      (handle_all reads answers ss, refl, omega (arith, handle_all-open answers ss))
  child_pass-open answers true received f ss h =
      let entry = record { fd = some f; wants_out = false; pollin = false; pollout = false } ∷ [] in
      (
        handle_all reads (decrement answers) (ss ++ entry),
        rw h refl,
        omega (
          arith,
          handle_all-open (decrement answers) (ss ++ entry),
          total-append is_open ss entry,
        ),
      )
