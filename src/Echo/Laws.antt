-- ===== src/Echo/Laws.antt =====
-- What one pass of the echo server does.
use ex_netlink.Base.{
  ℕ, add64, zero, suc, ◌+◌, ◌≡◌, ◌⊎◌, refl, ap, Option, none, some, List, [], ◌∷◌, ◌++◌, Bool, true,
  false, ◌||◌, arith, All, All-append, total, total-append, length, length-append, Bool-cases, inl,
  inr,
}
use ex_netlink.Echo.Server.{
  Slot, Read, bytes, end_of_file, error, Action, accepted, sent, closed, read_error, EchoServer,
  Outcome, continues, exits, answer, serve_fd, serve_all, set_revents, accept_one, serve_clients,
  pass,
}

-- An action is what the read from its descriptor calls for.
abbrev pub Answers : (ℕ → Read) → Action → Type 0
Answers reads (accepted f) = Unit
Answers reads (sent f b) = reads f ≡ bytes b
Answers reads (closed f) = reads f ≡ end_of_file
Answers reads (read_error f) = reads f ≡ error

-- Open entries, and how many entries an action opens and closes.
abbrev pub is_open : Slot → ℕ
is_open s = elim s.fd [ none ↦ 0 | some f ↦ 1 ]

abbrev pub opens : Action → ℕ
opens (accepted f) = 1
opens (sent f b) = 0
opens (closed f) = 0
opens (read_error f) = 0

abbrev pub closes : Action → ℕ
closes (closed f) = 1
closes (accepted f) = 0
closes (sent f b) = 0
closes (read_error f) = 0

module _ (reads : ℕ → Read) where
  serve_fd-Answers : (o : Option ℕ) (s : Slot) → All (Answers reads) (serve_fd reads o s).1
  unfolding serve_fd answer
  serve_fd-Answers none s = tt
  serve_fd-Answers (some f) s = elim (Bool-cases (s.readable || s.failed)) [
    | inl h ↦ rw h (go (reads f) refl)
    | inr h ↦ rw h tt
  ]
    where
      go : (r : Read) → reads f ≡ r → All (Answers reads) (answer reads f s r).1
      go (bytes b) e = (e, tt)
      go end_of_file e = (e, tt)
      go error e = (e, tt)

  serve_all-Answers : (ss : List Slot) → All (Answers reads) (serve_all reads ss).1
  unfolding serve_all
  serve_all-Answers [] = tt
  serve_all-Answers (s ∷ ss) =
      All-append (Answers reads) _ _ (serve_fd-Answers s.fd s) (serve_all-Answers ss)

  serve_fd-open :
      (o : Option ℕ) (s : Slot)
      → s.fd ≡ o
      → is_open (serve_fd reads o s).0 + total closes (serve_fd reads o s).1 ≡ is_open s
  unfolding serve_fd answer
  serve_fd-open o s e = ground arith

  serve_all-open :
      (ss : List Slot)
      → total is_open (serve_all reads ss).0 + total closes (serve_all reads ss).1
        ≡ total is_open ss
  unfolding serve_all
  serve_all-open [] = refl
  serve_all-open (s ∷ ss) = omega (
    arith,
    serve_fd-open s.fd s refl,
    serve_all-open ss,
    total-append closes (serve_fd reads s.fd s).1 (serve_all reads ss).1,
  )

set_revents-open :
    (ss : List Slot) (bits : List (Bool × Bool))
    → total is_open (set_revents ss bits) ≡ total is_open ss
unfolding set_revents
set_revents-open [] bits = refl
set_revents-open (s ∷ ss) [] = refl
set_revents-open (s ∷ ss) ((r, f) ∷ bits) = ap (λ n. is_open s + n) (set_revents-open ss bits)

set_revents-length :
    (ss : List Slot) (bits : List (Bool × Bool)) → length (set_revents ss bits) ≡ length ss
unfolding set_revents
set_revents-length [] bits = refl
set_revents-length (s ∷ ss) [] = refl
set_revents-length (s ∷ ss) ((r, f) ∷ bits) = ap suc (set_revents-length ss bits)

serve_all-length : (reads : ℕ → Read) (ss : List Slot) → length (serve_all reads ss).0 ≡ length ss
unfolding serve_all
serve_all-length reads [] = refl
serve_all-length reads (s ∷ ss) = ap suc (serve_all-length reads ss)

serve_fd-opens :
    (reads : ℕ → Read) (o : Option ℕ) (s : Slot) → total opens (serve_fd reads o s).1 ≡ 0
unfolding serve_fd answer
serve_fd-opens reads o s = ground arith

serve_all-opens : (reads : ℕ → Read) (ss : List Slot) → total opens (serve_all reads ss).1 ≡ 0
unfolding serve_all
serve_all-opens reads [] = refl
serve_all-opens reads (s ∷ ss) = omega (
  arith,
  serve_fd-opens reads s.fd s,
  serve_all-opens reads ss,
  total-append opens (serve_fd reads s.fd s).1 (serve_all reads ss).1,
)

-- The number of open entries after actions that take a server from `s` to `s'`, the number of its
-- entries, and what the actions say of the reads.
abbrev pub Accounted : (ℕ → Read) → EchoServer → EchoServer → List Action → Type 0
Accounted reads s s' actions =
    (total is_open s'.clients + total closes actions
      ≡ total is_open s.clients + total opens actions)
    × (length s'.clients ≡ length s.clients + total opens actions)
    × All (Answers reads) actions

-- poll(2) fails, or accept(2) does where it is called.
abbrev pub CallFails : Option ℕ → Bool → Option ℕ → Type 0
CallFails n listening connected = (n ≡ none) ⊎ ((listening ≡ true) × (connected ≡ none))

-- What a pass does, if it ends the program only where `ends`.
abbrev pub Accounts : Type 0 → (ℕ → Read) → EchoServer → Outcome → Type 0
Accounts ends reads s (continues s' actions) = Accounted reads s s' actions
Accounts ends reads s exits = ends

serve_clients-Accounted :
    (ends : Type 0) (reads : ℕ → Read) (s s₁ : EchoServer) (before : List Action)
    → total is_open s₁.clients + total closes before ≡ total is_open s.clients + total opens before
    → length s₁.clients ≡ length s.clients + total opens before
    → All (Answers reads) before
    → Accounts ends reads s (serve_clients reads (continues s₁ before))
unfolding serve_clients
serve_clients-Accounted ends reads s s₁ before o l a =
    let (cs, bs) = serve_all reads s₁.clients in
    (
      omega (
        arith,
        o,
        serve_all-open reads s₁.clients,
        serve_all-opens reads s₁.clients,
        total-append closes before bs,
        total-append opens before bs,
      ),
      omega (
        arith,
        l,
        serve_all-length reads s₁.clients,
        serve_all-opens reads s₁.clients,
        total-append opens before bs,
      ),
      All-append (Answers reads) before bs a (serve_all-Answers reads s₁.clients),
    )

-- A pass ends the program only if poll(2) or accept(2) fails. If it goes on, the number of open
-- entries grows by the accepted connections and shrinks by the closed ones, an entry is added for
-- each accepted connection and none is removed, and each action is the one that the read from its
-- descriptor calls for.
pub pass-Accounts :
    (n : Option ℕ) (listening : Bool) (bits : List (Bool × Bool)) (connected : Option ℕ)
    (stale : Slot) (reads : ℕ → Read) (s : EchoServer)
    → Accounts
        (CallFails n listening connected)
        reads
        s
        (pass n listening bits connected stale reads s)
unfolding pass accept_one serve_clients
pass-Accounts none listening bits connected stale reads s = inl refl
pass-Accounts (some zero) listening bits connected stale reads s = (omega arith, omega arith, tt)
pass-Accounts (some (suc n)) false bits connected stale reads s =
    serve_clients-Accounted (CallFails (some (suc n)) false connected) reads s
      (record s { clients = set_revents s.clients bits }) []
      (omega (arith, set_revents-open s.clients bits))
      (omega (arith, set_revents-length s.clients bits)) tt
pass-Accounts (some (suc n)) true bits none stale reads s = inr (refl, refl)
pass-Accounts (some (suc n)) true bits (some f) stale reads s =
    let cs = set_revents s.clients bits in
    let entry = record stale { fd = some f } ∷ [] in
    serve_clients-Accounted (CallFails (some (suc n)) true (some f)) reads s
      (record { clients = cs ++ entry; count = add64 s.count 1 }) (accepted f ∷ [])
      (omega (arith, set_revents-open s.clients bits, total-append is_open cs entry))
      (omega (arith, set_revents-length s.clients bits, length-append cs entry)) (tt, tt)
