-- ===== src/Rtt/Domain/Kept/Turns.antt =====
-- What a turn of `startDomain` keeps: a predicate on the state that each of its writes keeps, and one
-- on what leaves the process.
use ex_netlink.Base.{
  ℕ, ◌≡◌, refl, subst, inl, inr, Bool, true, false, Bool-cases, Option, none, some, List, [], ◌==◌,
  if◌then◌else◌, ◌>>=◌, All, All-append, take,
}
use ex_netlink.Buffer.{Buffer, readed_size, skip, copy_out}
use ex_netlink.Rtt.Package.{RttPackage, package_bytes, serve}
use ex_netlink.Rtt.Translation.{Translation}
use ex_netlink.Rtt.Domain.Defs.{Bits, Domain, dispose, Written, fails, wrote, keep_unsent}
use ex_netlink.Rtt.Domain.Turn.{
  Calls, Act, answers, drains, shuts, Turn, falls, continues, returns, faults, or_fault, log,
  and_then, translation_of, receive, with_translation, wait_in, wait_out, alter, settle, reply,
  on_in, drain, on_out, on_err, turn,
}

-- A predicate on the state that the writes for entry `i` with descriptor `f` keep, and one on the acts
-- that they log. A store and an answer come with the `Translation` that was found.
pub record Closed (P : Domain → Type 0) (Q : Act → Type 0) (i f : ℕ) : Type 0 where
  pub dispose_keeps : (d e : Domain) → dispose d i ≡ some e → P d → P e
  pub wait_in_keeps : (d e : Domain) → alter wait_in i d ≡ some e → P d → P e
  pub wait_out_keeps : (d e : Domain) → alter wait_out i d ≡ some e → P d → P e
  pub store_keeps :
      (d : Domain) (t v : Translation)
      → translation_of f d.translations ≡ some t
      → P d
      → P (with_translation f v d)
  pub answers_in :
      (d : Domain) (t : Translation) (bytes : List ℕ)
      → translation_of f d.translations ≡ some t
      → P d
      → Q (answers f bytes)
  pub drains_in :
      (d : Domain) (t : Translation) (bytes : List ℕ)
      → translation_of f d.translations ≡ some t
      → P d
      → Q (drains f bytes)
  pub shuts_in : Q (shuts f)

module _ (P : Domain → Type 0) (Q : Act → Type 0) where
  -- The state and the log that a turn leaves, if it leaves one.
  abbrev pub Leaves : Turn → Type 0
  Leaves (falls d acts) = P d × All Q acts
  Leaves (continues d acts) = P d × All Q acts
  Leaves (returns d acts) = P d × All Q acts
  Leaves faults = Unit {0}

  Leaves-bind :
      {A : Type 0} (o : Option A) (next : A → Option Turn)
      → ((a : A) → o ≡ some a → Leaves (or_fault (next a)))
      → Leaves (or_fault (o >>= next))
  unfolding or_fault
  Leaves-bind none next h = tt
  Leaves-bind (some a) next h = h a refl

  Leaves-log : (before : List Act) (t : Turn) → All Q before → Leaves t → Leaves (log before t)
  unfolding log
  Leaves-log before (falls d acts) q h = (h.0, All-append Q before acts q h.1)
  Leaves-log before (continues d acts) q h = (h.0, All-append Q before acts q h.1)
  Leaves-log before (returns d acts) q h = (h.0, All-append Q before acts q h.1)
  Leaves-log before faults q h = h

  Leaves-and_then :
      (t : Turn) (next : Domain → Turn)
      → Leaves t
      → ((d : Domain) → P d → Leaves (next d))
      → Leaves (and_then t next)
  unfolding and_then
  Leaves-and_then (falls d acts) next h k = Leaves-log acts (next d) h.1 (k d h.0)
  Leaves-and_then (continues d acts) next h k = h
  Leaves-and_then (returns d acts) next h k = h
  Leaves-and_then faults next h k = h

  Leaves-if :
      (b : Bool) (t : Turn) (d : Domain) → Leaves t → P d → Leaves (if b then t else falls d [])
  Leaves-if true t d h p = h
  Leaves-if false t d h p = (p, tt)

  module _ (fresh : ℕ → List ℕ) (calls : Calls) {i f : ℕ} (c : Closed P Q i f) where
    settle_keeps : (b : Bool) (d e : Domain) → settle b i d ≡ some e → P d → P e
    unfolding settle
    settle_keeps false d e h p = subst P (cc) p
    settle_keeps true d e h p = c.wait_out_keeps d e h p

    reply-Leaves :
        (d : Domain) (t : Translation) (b : Buffer) (o : Option RttPackage)
        → translation_of f d.translations ≡ some t
        → P d
        → Leaves (or_fault (reply fresh calls i f d t b o))
    unfolding reply or_fault
    reply-Leaves d t b none l p =
        Leaves-bind (alter wait_in i _) _
          (λ e h. (c.wait_in_keeps _ e h (c.store_keeps d t _ l p), tt))
    reply-Leaves d t b (some pkg) l p =
        Leaves-bind (keep_unsent fresh t.wbuffer (package_bytes pkg) calls.answered calls.eagain) _
          (λ w h. Leaves-bind (settle w.1 i _) _ (λ e k.
            (settle_keeps w.1 _ e k (c.store_keeps d t _ l p), (c.answers_in d t _ l p, tt))))

    receive-Leaves :
        (d : Domain) (r : Option (List ℕ)) → P d → Leaves (or_fault (receive fresh calls i f d r))
    unfolding receive or_fault
    receive-Leaves d none p =
        Leaves-bind (dispose d i) _ (λ e h. (c.dispose_keeps d e h p, (c.shuts_in, tt)))
    receive-Leaves d (some bytes) p = Leaves-bind (translation_of f d.translations) _ (λ t l.
        Leaves-bind (serve fresh t.rbuffer bytes calls.recv_time calls.send_time) _
          (λ r k. reply-Leaves d t r.0 r.1 l p))

    drain-Leaves :
        (d : Domain) (t : Translation) (held : List ℕ) (n : Written)
        → translation_of f d.translations ≡ some t
        → P d
        → Leaves (or_fault (drain fresh calls i f d t held n))
    unfolding drain or_fault
    drain-Leaves d t held fails l p = elim (Bool-cases calls.wouldblock) [
      | inl e ↦ rw e (Leaves-bind (alter wait_out i d) _ (λ e h. (c.wait_out_keeps d e h p, tt)))
      | inr e ↦
          rw e (Leaves-bind (dispose d i) _ (λ e h. (c.dispose_keeps d e h p, (c.shuts_in, tt))))
    ]
    drain-Leaves d t held (wrote n) l p = elim (Bool-cases (n == readed_size t.wbuffer)) [
      | inl e ↦ rw e (
          Leaves-bind (dispose d i) _ (λ e h.
            (c.dispose_keeps d e h p, (c.drains_in d t (take n held) l p, (c.shuts_in, tt)))))
      | inr e ↦ rw e (
          Leaves-bind (skip t.wbuffer n) _ (λ b h. Leaves-bind (alter wait_out i _) _ (λ e k. (
            c.wait_out_keeps _ e k (c.store_keeps d t _ l p),
            (c.drains_in d t (take n held) l p, tt),
          ))))
    ]

    on_out-Leaves : (d : Domain) → P d → Leaves (on_out fresh calls i f d)
    unfolding on_out
    on_out-Leaves d p = Leaves-bind (translation_of f d.translations) _ (λ t l.
        Leaves-bind (copy_out t.wbuffer.buf t.wbuffer.readindex (readed_size t.wbuffer)) _
          (λ held h. drain-Leaves d t held calls.drained l p))

    on_err-Leaves : (d : Domain) → P d → Leaves (on_err fresh calls i f d)
    unfolding on_err or_fault
    on_err-Leaves d p = elim (Bool-cases calls.eintr) [
      | inl e ↦ rw e (p, tt)
      | inr e ↦ rw e (Leaves-bind (dispose d i) _ (λ e h. (c.dispose_keeps d e h p, tt)))
    ]

    pub turn-Leaves : (r : Bits) (d : Domain) → P d → Leaves (turn fresh calls i f r d)
    unfolding turn on_in
    turn-Leaves r d p =
        Leaves-and_then
          (and_then (if r.pollin then on_in fresh calls i f d else falls d [])
            (λ e. if r.pollout then on_out fresh calls i f e else falls e []))
          (λ e. if r.pollerr then on_err fresh calls i f e else falls e [])
          (Leaves-and_then (if r.pollin then on_in fresh calls i f d else falls d [])
            (λ e. if r.pollout then on_out fresh calls i f e else falls e [])
            (Leaves-if r.pollin (on_in fresh calls i f d) d (receive-Leaves d calls.read p) p)
            (λ e q. Leaves-if r.pollout (on_out fresh calls i f e) e (on_out-Leaves e q) q))
          (λ e q. Leaves-if r.pollerr (on_err fresh calls i f e) e (on_err-Leaves e q) q)
