-- ===== src/Rtt/Poll/Table.antt =====
-- What `add`, `remove` and `update` do to the tables of `Poll`.
use ex_netlink.Base.{
  ℕ, ◌+◌, ◌≡◌, refl, ap, ◌∙◌, ◌⊎◌, inl, inr, Option, none, some, List, [], ◌∷◌, Bool-cases, true,
  false, arith, if◌then◌else◌, total, total-append,
}
use ex_netlink.Rtt.Socket.{Socket, copy, shared_from_this}
use ex_netlink.Rtt.Poll.Defs.{
  Events, PollFd, same_fd, Poll, new_poll, contains, events_of, set_events, register, checks_table,
  Outcome, returns, throws, add, erase_fd, erase_key, remove, update,
}

abbrev pub poll_of : Outcome → Poll
poll_of (returns p) = p
poll_of (throws p) = p

-- `add` never registers a socket: it takes the weak pointer of a copy of the object, which is empty.
-- It returns early if the table has the descriptor already, and else throws; either way the reactor
-- is as it was.
add-throws :
    (p : Poll) (s : Socket)
    → (poll_of (add p s) ≡ p)
      × ((add p s ≡ throws p) ⊎ ((add p s ≡ returns p) × (contains s.id p.fdtbs ≡ true)))
unfolding add copy shared_from_this checks_table
add-throws p s = ground arith

-- The calls that the program makes of its reactor.
pub data Op : Type 0 where
  adds removes updates : Socket → Op

unfoldable pub apply : Poll → Op → Poll
apply p (adds s) = poll_of (add p s)
apply p (removes s) = remove p s
apply p (updates s) = update p s

unfoldable pub apply_all : Poll → List Op → Poll
apply_all p [] = p
apply_all p (o ∷ os) = apply_all (apply p o) os

apply-new : (o : Op) → apply new_poll o ≡ new_poll
unfolding apply remove update new_poll contains set_events
apply-new (adds s) = (add-throws new_poll s).0
apply-new (removes s) = refl
apply-new (updates s) = refl

-- So a reactor watches no descriptor, whatever calls have been made of it since it was made.
pub apply_all-empty : (os : List Op) → apply_all new_poll os ≡ new_poll
unfolding apply_all
apply_all-empty [] = refl
apply_all-empty (o ∷ os) = ap (λ p. apply_all p os) (apply-new o) ∙ apply_all-empty os

-- How many entries of the array poll(2) gets are for a descriptor.
abbrev pub is_fd : Option ℕ → PollFd → ℕ
is_fd id p = if same_fd id p.fd then 1 else 0

same_fd_eq : (a b : Option ℕ) → same_fd a b ≡ true → a ≡ b
same_fd_eq none none h = refl
same_fd_eq none (some b) h = cc
same_fd_eq (some a) none h = cc
same_fd_eq (some a) (some b) h = ground arith

same_fd_refl : (a : Option ℕ) → same_fd a a ≡ true
same_fd_refl none = refl
same_fd_refl (some a) = ground arith

total-set_events :
    (id : Option ℕ) (e : Events) (ps : List PollFd) (k : Option ℕ)
    → total (is_fd k) (set_events id e ps) ≡ total (is_fd k) ps
unfolding set_events
total-set_events id e [] k = refl
total-set_events id e (p ∷ ps) k = elim (Bool-cases (same_fd p.fd id)) [
  | inl s ↦ rw s (rw (same_fd_eq p.fd id s))
  | inr s ↦ rw s (ap (λ t. is_fd k p + t) (total-set_events id e ps k))
]

-- The part of `add` behind that exception appends an entry also where it has found and updated one:
-- each registration of a descriptor adds one more entry for it, and none for any other.
pub register-total :
    (p : Poll) (s : Socket) (address : ℕ) (k : Option ℕ)
    → total (is_fd k) (register p s address).fds
      ≡ total (is_fd k) p.fds + (if same_fd k s.id then 1 else 0)
unfolding register
register-total p s address k =
    total-append (is_fd k) (set_events s.id (events_of s) p.fds) _
    ∙ omega (arith, total-set_events s.id (events_of s) p.fds k)

same_fd_left : (a b c : Option ℕ) → same_fd a b ≡ true → same_fd a c ≡ same_fd b c
same_fd_left a b c h = ap (λ x. same_fd x c) (same_fd_eq a b h)

same_fd_right : (a b c : Option ℕ) → same_fd b c ≡ true → same_fd a b ≡ same_fd a c
same_fd_right a b c h = ap (same_fd a) (same_fd_eq b c h)

total-erase_fd :
    (id : Option ℕ) (ps : List PollFd) (k : Option ℕ)
    → total (is_fd k) (erase_fd id ps) ≡ (if same_fd k id then 0 else total (is_fd k) ps)
unfolding erase_fd
total-erase_fd id [] k = ground arith
total-erase_fd id (p ∷ ps) k = elim (Bool-cases (same_fd id p.fd)) [
  | inl s ↦ rw s (ground (arith, total-erase_fd id ps k, same_fd_right k id p.fd s))
  | inr s ↦ rw s (ground (arith, total-erase_fd id ps k, same_fd_left k id p.fd))
]

contains-erase_key :
    (id : Option ℕ) (t : List (Option ℕ × ℕ)) (k : Option ℕ)
    → contains k (erase_key id t) ≡ (if same_fd k id then false else contains k t)
unfolding contains erase_key
contains-erase_key id [] k = ground arith
contains-erase_key id ((j, a) ∷ t) k = elim (Bool-cases (same_fd id j)) [
  | inl s ↦ rw s (ground (arith, contains-erase_key id t k, same_fd_right k id j s))
  | inr s ↦ rw s (ground (arith, contains-erase_key id t k, same_fd_left k id j))
]

-- `remove` of a descriptor that the table has takes it from the table, and all of its entries from
-- the array; what concerns any other descriptor stays.
remove_lem :
    (p : Poll) (s : Socket)
    → contains s.id p.fdtbs ≡ true
    → (k : Option ℕ)
    → (total (is_fd k) (remove p s).fds ≡ (if same_fd k s.id then 0 else total (is_fd k) p.fds))
      × (contains k (remove p s).fdtbs ≡ (if same_fd k s.id then false else contains k p.fdtbs))
unfolding remove
remove_lem p s h k = rw h (total-erase_fd s.id p.fds k, contains-erase_key s.id p.fdtbs k)
