-- ===== src/Sockops/Connect.antt =====
-- What the callers of Sockops.h can rely on.
use ex_netlink.Base.{
  ℕ, zero, suc, ◌≡◌, ◌≢◌, refl, ap, ◌⊎◌, inl, inr, Option, Option-cases, Bool-cases, none, some,
  List, [], ◌∷◌, ◌++◌, map,
}
use ex_netlink.Sockops.Defs.{
  Errno, eagain, einprogress, etimedout, other, Flags, Got, got, got_error, set_socket_not_block,
  Attempt, connected, under_way, refused, attempts, Waited, Outcome, set_errno, await, check_error,
  settle, connect_async, addrs_from, net_server_db,
}

abbrev pub repeat {ℓ} : {A : Type ℓ} → ℕ → A → List A
repeat zero a = []
repeat (suc n) a = a ∷ repeat n a

-- The loop of `connectAsync` ends with the first result of connect(2) that is not EAGAIN.
attempts-repeat :
    (n : ℕ) (rs : List (Option Errno)) → attempts (repeat n (some eagain) ++ rs) ≡ attempts rs
unfolding attempts
attempts-repeat zero rs = refl
attempts-repeat (suc n) rs = attempts-repeat n rs

attempt-ends :
    (r : Option Errno) (rs : List (Option Errno))
    → r ≢ some eagain
    → (a : Attempt) × (attempts (r ∷ rs) ≡ some a)
unfolding attempts
attempt-ends none rs h = (connected, refl)
attempt-ends (some eagain) rs h = absurd (h refl)
attempt-ends (some einprogress) rs h = (under_way, refl)
attempt-ends (some etimedout) rs h = (refused etimedout, refl)
attempt-ends (some (other n)) rs h = (refused (other n), refl)

-- The descriptor is closed once if there is an error, and else not at all.
abbrev pub ClosedOnError : Outcome → Type 0
ClosedOnError o =
    ((o.condition ≡ none) × (o.closes ≡ 0))
    ⊎ ((e : Errno) × (o.condition ≡ some e) × (o.closes ≡ 1))

check_error-ClosedOnError : (e : Errno) (g s c : Option Errno) → ClosedOnError (check_error e g s c)
unfolding check_error
check_error-ClosedOnError e (some g) s c = inr (set_errno g c, refl, refl)
check_error-ClosedOnError e none (some s) c = inr (set_errno e c, refl, refl)
check_error-ClosedOnError e none none c = inl (refl, refl)

await-ClosedOnError : (e : Errno) (w : Waited) (c : Option Errno) → ClosedOnError (await e w c)
unfolding await
await-ClosedOnError e w c = elim (Bool-cases w.one_ready) [
  | inl h ↦ elim (Bool-cases w.isset) [
    | inl i ↦ rw (h, i) (check_error-ClosedOnError e w.getsockopt w.so_error c)
    | inr i ↦ rw (h, i) (inr (set_errno e c, refl, refl))
  ]
  | inr h ↦ rw h (inr (etimedout, refl, refl))
]

settle-ClosedOnError : (a : Attempt) (w : Waited) (c : Option Errno) → ClosedOnError (settle a w c)
unfolding settle
settle-ClosedOnError connected w c = inl (refl, refl)
settle-ClosedOnError under_way w c = await-ClosedOnError einprogress w c
settle-ClosedOnError (refused e) w c = inr (set_errno e c, refl, refl)

-- After any number of EAGAIN and then any other result of connect(2), `connectAsync` returns; it
-- has closed the descriptor once if it returns an error, and not at all if it does not.
pub connect_async-ClosedOnError :
    (n : ℕ) (r : Option Errno) (rs : List (Option Errno)) (w : Waited) (c : Option Errno)
    → r ≢ some eagain
    → (o : Outcome) × (connect_async (repeat n (some eagain) ++ (r ∷ rs)) w c ≡ some o)
      × ClosedOnError o
unfolding connect_async
connect_async-ClosedOnError n r rs w c h =
    let (a, e) = attempt-ends r rs h in
    (settle a w c, rw (attempts-repeat n (r ∷ rs), e) refl, settle-ClosedOnError a w c)

-- The error that SO_ERROR holds after a connection has failed never gets into what `connectAsync`
-- returns: with any two errors it returns the same.
connect_async-hides_error :
    (rs : List (Option Errno)) (w : Waited) (c : Option Errno) (e₁ e₂ : Errno)
    → connect_async rs (record w { so_error = some e₁ }) c
      ≡ connect_async rs (record w { so_error = some e₂ }) c
unfolding connect_async settle await check_error
connect_async-hides_error rs w c e₁ e₂ = elim (Option-cases (attempts rs)) [
  | inl h ↦ rw h refl
  | inr (a, h) ↦ rw h (ap some (settled a))
]
  where
    one :
        (g : Option Errno)
        → check_error einprogress g (some e₁) c ≡ check_error einprogress g (some e₂) c
    one (some g) = refl
    one none = refl

    settled :
        (a : Attempt)
        → settle a (record w { so_error = some e₁ }) c
          ≡ settle a (record w { so_error = some e₂ }) c
    settled connected = refl
    settled (refused e) = refl
    settled under_way = elim (Bool-cases w.one_ready) [
      | inl h ↦ elim (Bool-cases w.isset) [
        | inl i ↦ rw (h, i) (one w.getsockopt)
        | inr i ↦ rw (h, i) refl
      ]
      | inr h ↦ rw h refl
    ]

-- `setSocketNotBlock` never calls F_SETFL: the descriptor stays as it was, and a success is reported
-- whenever its flags could be read.
pub set_socket_not_block-keeps :
    (g : Got) (setfl : Option Errno)
    → ((set_socket_not_block g setfl).1 ≡ none)
      × (((e : Errno) × (g ≡ got_error e) × ((set_socket_not_block g setfl).0 ≡ some e))
          ⊎ ((f : Flags) × (g ≡ got f) × ((set_socket_not_block g setfl).0 ≡ none)))
unfolding set_socket_not_block
set_socket_not_block-keeps (got_error e) setfl = (refl, inl (e, refl, refl))
set_socket_not_block-keeps (got f) setfl = (refl, inr (f, refl, refl))

addrs_from_lem :
    (first : ℕ) (xs : List ℕ) (port : ℕ) → addrs_from first xs port ≡ map (λ a. (first, port)) xs
unfolding addrs_from
addrs_from_lem first [] port = refl
addrs_from_lem first (a ∷ xs) port = ap (λ r. (first, port) ∷ r) (addrs_from_lem first xs port)

-- `NetServerDB` keeps as many addresses as the host has, and each of them is the host's first.
pub net_server_db_lem :
    (a : ℕ) (rest : List ℕ) (port : ℕ)
    → net_server_db (some (a ∷ rest)) port ≡ map (λ b. (a, port)) (a ∷ rest)
unfolding net_server_db
net_server_db_lem a rest port = addrs_from_lem a (a ∷ rest) port
