-- ===== src/Handshake/Rules.antt =====
-- How to show that a function is careful: what a thread that is sure may do, and the statements that
-- branch on an answer.
use ex_netlink.Base.{ℕ, Option, none, some, Bool, true, false, ◌==◌, ◌||◌, ◌≡◌, refl}
use ex_netlink.Handshake.Prog.{
  Sys, sys, lock, unlock, wait, store, notify_one, notify_all, start, join, Prog, done, abort, call,
  reports, asserts, printf,
}
use ex_netlink.Handshake.Order.{Careful, or_right}

module _ (P Q : ℕ → Sys → Bool) (m : ℕ) where
  or_mono : (c a b : Bool) → (a ≡ true → b ≡ true) → (c || a) ≡ true → (c || b) ≡ true
  or_mono true a b h t = refl
  or_mono false a b h t = h t

  weaken-Careful :
      (p : Prog) (a b : Bool) → (a ≡ true → b ≡ true) → Careful P Q m a p → Careful P Q m b p
  weaken-Careful done a b h c = tt
  weaken-Careful abort a b h c = tt
  weaken-Careful (call (sys line s) k) a b h c = (
    λ q. h (c.0 q),
    λ x. weaken-Careful (k x) (P line s || a) (P line s || b) (or_mono (P line s) a b h) (c.1 x),
  )
  weaken-Careful (call (wait l) k) a b h c =
      λ x. weaken-Careful (k x) (l == m || a) (l == m || b) (or_mono (l == m) a b h) (c x)
  weaken-Careful (call (store l) k) a b h c =
      (λ q. h (c.0 q), λ x. weaken-Careful (k x) a b h (c.1 x))
  weaken-Careful (call (lock l) k) a b h c = λ x. weaken-Careful (k x) a b h (c x)
  weaken-Careful (call (unlock l) k) a b h c = λ x. weaken-Careful (k x) a b h (c x)
  weaken-Careful (call (notify_one l) k) a b h c = λ x. weaken-Careful (k x) a b h (c x)
  weaken-Careful (call (notify_all l) k) a b h c = λ x. weaken-Careful (k x) a b h (c x)
  weaken-Careful (call (start l) k) a b h c = λ x. weaken-Careful (k x) a b h (c x)
  weaken-Careful (call (join l) k) a b h c = λ x. weaken-Careful (k x) a b h (c x)

  -- The statements that branch on an answer.
  pub reports-Careful :
      (sure : Bool) (a : Option ℕ) (line : ℕ) (k : Option ℕ → Prog)
      → (Q line printf ≡ true → sure ≡ true)
      → ((b : Option ℕ) → Careful P Q m sure (k b))
      → Careful P Q m sure (reports a line k)
  reports-Careful sure none line k q h = (
    q,
    λ b.
        weaken-Careful (k b) sure (P line printf || sure) (or_right P Q m (P line printf) sure)
          (h b),
  )
  reports-Careful sure (some x) line k q h = h none

  pub asserts-Careful :
      (sure : Bool) (a : Option ℕ) (k : Option ℕ → Prog)
      → ((b : Option ℕ) → Careful P Q m sure (k b))
      → Careful P Q m sure (asserts a k)
  asserts-Careful sure none k h = tt
  asserts-Careful sure (some x) k h = h none

  -- A thread that is sure may do anything.
  pub sure-Careful : (p : Prog) (sure : Bool) → sure ≡ true → Careful P Q m sure p
  sure-Careful done sure h = tt
  sure-Careful abort sure h = tt
  sure-Careful (call (sys line s) k) sure h =
      (λ _. h, λ x. sure-Careful (k x) (P line s || sure) (or_right P Q m (P line s) sure h))
  sure-Careful (call (wait l) k) sure h =
      λ x. sure-Careful (k x) (l == m || sure) (or_right P Q m (l == m) sure h)
  sure-Careful (call (store l) k) sure h = (λ _. h, λ x. sure-Careful (k x) sure h)
  sure-Careful (call (lock l) k) sure h = λ x. sure-Careful (k x) sure h
  sure-Careful (call (unlock l) k) sure h = λ x. sure-Careful (k x) sure h
  sure-Careful (call (notify_one l) k) sure h = λ x. sure-Careful (k x) sure h
  sure-Careful (call (notify_all l) k) sure h = λ x. sure-Careful (k x) sure h
  sure-Careful (call (start l) k) sure h = λ x. sure-Careful (k x) sure h
  sure-Careful (call (join l) k) sure h = λ x. sure-Careful (k x) sure h
