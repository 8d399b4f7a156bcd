-- ===== src/TimeService/Kept.antt =====
-- The processes of the time server grow in number, and keep their connections.
use ex_netlink.Base.{
  ℕ, suc, ◌+◌, ◌*◌, ◌≤◌, ◌≡◌, refl, ◌∙◌, inl, inr, Option, none, some, List, [], ◌∷◌, ◌==◌,
  if◌then◌else◌, Bool, true, false, Bool-cases, get_elem?, set, length, length-append, length-set,
  total, total-append, total-set, arith,
}
use ex_netlink.TimeService.Defs.{
  Child, not_forked, aborted, answered, Turn, Server, new_server, forks, accepts, turn, turn_in,
  run,
}

abbrev pub is_cd : ℕ → ℕ → ℕ
is_cd k cd = if k == cd then 1 else 0

-- How often a connection has been served.
abbrev pub times : ℕ → List ℕ → ℕ
times k cds = total (is_cd k) cds

-- 1 for a process that has a connection open, and 0 for any other.
abbrev pub holds : ℕ → List ℕ → ℕ
holds k [] = 0
holds k (cd ∷ cds) = if k == cd then 1 else holds k cds

-- One process for each connection served, beside the first. A connection is served once at most, and
-- one that has been served is open in two processes at least.
pub record Kept (s : Server) : Type 0 where
  pub grown : length s.processes ≡ suc (length s.served)
  pub fresh : (k : ℕ) → s.next ≤ k → times k s.served ≡ 0
  pub once : (k : ℕ) → times k s.served ≤ 1
  pub twice : (k : ℕ) → 2 * times k s.served ≤ total (holds k) s.processes

holds_more : (k cd : ℕ) (cds : List ℕ) → holds k cds ≤ holds k (cd ∷ cds)
holds_more k cd cds = elim (Bool-cases (k == cd)) [
  | inl e ↦ rw e (holds_one k cds)
  | inr e ↦ rw e (omega arith)
]
  where
    holds_one : (k : ℕ) (cds : List ℕ) → holds k cds ≤ 1
    holds_one k [] = omega arith
    holds_one k (c ∷ cds) = elim (Bool-cases (k == c)) [
      | inl e ↦ rw e (omega arith)
      | inr e ↦ rw e (holds_one k cds)
    ]

-- The accepting process opens one connection more.
accepts-twice :
    (s : Server) (who : ℕ) (cds : List ℕ) (cd : ℕ)
    → get_elem? s.processes who ≡ some cds
    → Kept s
    → (k : ℕ) → 2 * times k s.served ≤ total (holds k) (set s.processes who (cd ∷ cds))
accepts-twice s who cds cd h v k =
    omega
      (arith, v.twice k, holds_more k cd cds, total-set (holds k) s.processes who cds (cd ∷ cds) h)

answered-twice :
    (s : Server) (who : ℕ) (cds : List ℕ)
    → get_elem? s.processes who ≡ some cds
    → Kept s
    → (k : ℕ)
    → 2 * times k (s.next ∷ s.served)
      ≤ total (holds k) (set s.processes who (s.next ∷ cds)) + holds k (s.next ∷ cds)
answered-twice s who cds h v k = elim (Bool-cases (k == s.next)) [
  | inl e ↦ rw e (
      omega (
        arith,
        v.fresh k (ground (arith, e)),
        opened e,
        total-set (holds k) s.processes who cds [] h,
      ))
  | inr e ↦ rw e (omega (arith, accepts-twice s who cds s.next h v k))
]
  where
    held : (k == s.next) ≡ true → holds k (s.next ∷ cds) ≡ 1
    held e = rw e refl

    opened :
        (k == s.next) ≡ true
        → total (holds k) (set s.processes who (s.next ∷ cds)) + holds k cds
          ≡ total (holds k) s.processes + 1
    opened e = omega (arith, held e, total-set (holds k) s.processes who cds (s.next ∷ cds) h)

forks-Kept :
    (s : Server) (who : ℕ) (cds : List ℕ) (child : Child)
    → get_elem? s.processes who ≡ some cds
    → Kept s
    → Kept (forks s who cds child s.next)
unfolding forks
forks-Kept s who cds not_forked h v = record {
  grown = length-set s.processes who (s.next ∷ cds) ∙ v.grown;
  fresh = λ k le. v.fresh k (omega arith);
  once = v.once;
  twice = accepts-twice s who cds s.next h v;
}
forks-Kept s who cds aborted h v = record {
  grown = length-set s.processes who (s.next ∷ cds) ∙ v.grown;
  fresh = λ k le. v.fresh k (omega arith);
  once = v.once;
  twice = accepts-twice s who cds s.next h v;
}
forks-Kept s who cds answered h v = record {
  grown = omega (
    arith,
    length-append (set s.processes who (s.next ∷ cds)) ((s.next ∷ cds) ∷ []),
    length-set s.processes who (s.next ∷ cds),
    v.grown,
  );
  fresh = λ k le. ground (arith, v.fresh k (omega arith));
  once = λ k. elim (Bool-cases (k == s.next)) [
    | inl e ↦ rw e (omega (arith, v.fresh k (ground (arith, e))))
    | inr e ↦ rw e (omega (arith, v.once k))
  ];
  twice = λ k. omega (
    arith,
    answered-twice s who cds h v k,
    total-append (holds k) (set s.processes who (s.next ∷ cds)) ((s.next ∷ cds) ∷ []),
  );
}

accepts-Kept :
    (s : Server) (who : ℕ) (cds : List ℕ) (child : Child) (accepted : Bool)
    → get_elem? s.processes who ≡ some cds
    → Kept s
    → Kept (accepts s who cds child accepted)
unfolding accepts
accepts-Kept s who cds child false h v = v
accepts-Kept s who cds child true h v = forks-Kept s who cds child h v

turn_in-Kept :
    (s : Server) (t : Turn) (cds : Option (List ℕ))
    → get_elem? s.processes t.who ≡ cds
    → Kept s
    → Kept (turn_in s t cds)
unfolding turn_in
turn_in-Kept s t none e v = v
turn_in-Kept s t (some cds) e v = accepts-Kept s t.who cds t.child t.accepted e v

turn-Kept : (s : Server) (t : Turn) → Kept s → Kept (turn s t)
unfolding turn
turn-Kept s t v = turn_in-Kept s t (get_elem? s.processes t.who) refl v

run-keeps : (s : Server) (ts : List Turn) → Kept s → Kept (run s ts)
unfolding run
run-keeps s [] v = v
run-keeps s (t ∷ ts) v = run-keeps (turn s t) ts (turn-Kept s t v)

-- In whatever order the processes of the server take their turns, and whatever accept(2), fork(2) and
-- the children come to, there is one process more than connections served; each connection is served
-- once at most; and one that has been served is open in two processes at least.
pub run-Kept : (ts : List Turn) → Kept (run new_server ts)
unfolding new_server
run-Kept ts = run-keeps new_server ts (record {
  grown = refl;
  fresh = λ k le. refl;
  once = λ k. omega arith;
  twice = λ k. omega arith;
})
