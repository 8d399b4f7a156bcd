-- ===== src/Rtt/Domain/Turn.antt =====
-- set/rtt/rtt_server.cpp: the body of the loop of `startDomain` over the entries of `fds`.
--
-- An entry's system calls return what a `Calls` holds.
use ex_netlink.Base.{
  ℕ, Option, none, some, List, [], ◌∷◌, ◌++◌, Bool, true, false, ◌==◌, if◌then◌else◌, ◌>>=◌,
  get_elem?, set, take,
}
use ex_netlink.Buffer.{Buffer, readed_size, skip, copy_out}
use ex_netlink.Rtt.Package.{RttPackage, package_bytes, serve}
use ex_netlink.Rtt.Translation.{Translation, Connector, pointer, get_data}
use ex_netlink.Rtt.Domain.Defs.{Bits, Slot, Domain, dispose, Written, fails, wrote, keep_unsent}

-- `read` is `none` where read(2) returns 0 or a negative number, `eagain` and `wouldblock` what errno
-- is after the two writes, and `eintr` whether SO_ERROR is EINTR.
pub record Calls : Type 0 where
  pub read : Option (List ℕ)
  pub recv_time : ℕ
  pub send_time : ℕ
  pub answered : Written
  pub eagain : Bool
  pub drained : Written
  pub wouldblock : Bool
  pub eintr : Bool

-- What leaves the process: bytes of an answer, bytes of `wbuffer`, a shutdown.
pub data Act : Type 0 where
  answers : ℕ → List ℕ → Act
  drains : ℕ → List ℕ → Act
  shuts : ℕ → Act

-- Where a part of the body ends: at the next part, at the next entry, or out of the function with -1.
-- `faults` is a failed assertion, an exception, or an access outside of an array.
pub data Turn : Type 0 where
  falls : Domain → List Act → Turn
  continues : Domain → List Act → Turn
  returns : Domain → List Act → Turn
  faults : Turn

unfoldable pub or_fault : Option Turn → Turn
or_fault none = faults
or_fault (some t) = t

unfoldable pub log : List Act → Turn → Turn
log before (falls d acts) = falls d (before ++ acts)
log before (continues d acts) = continues d (before ++ acts)
log before (returns d acts) = returns d (before ++ acts)
log before faults = faults

unfoldable pub and_then : Turn → (Domain → Turn) → Turn
and_then (falls d acts) next = log acts (next d)
and_then (continues d acts) next = continues d acts
and_then (returns d acts) next = returns d acts
and_then faults next = faults

-- `translations_[fd]->getData<Translation>()`
unfoldable pub translation_of : ℕ → List (ℕ × Connector) → Option Translation
translation_of f [] = none
translation_of f ((k, c) ∷ t) = if f == k then get_data c else translation_of f t

-- A write through the pointer that `getData` returned.
unfoldable pub store_pointed : Translation → Connector → Connector
store_pointed v c = record c { stored = pointer v }

unfoldable pub update : ℕ → Translation → List (ℕ × Connector) → List (ℕ × Connector)
update f v [] = []
update f v ((k, c) ∷ t) = if f == k then (k, store_pointed v c) ∷ t else (k, c) ∷ update f v t

unfoldable pub with_translation : ℕ → Translation → Domain → Domain
with_translation f v d = record d { translations = update f v d.translations }

-- `events |= POLLIN`, and `events |= POLLOUT` with `events &= ~POLLIN`.
unfoldable pub wait_in : Slot → Slot
wait_in s = record s { events = record s.events { pollin = true } }

unfoldable pub wait_out : Slot → Slot
wait_out s = record s { events = record s.events { pollin = false; pollout = true } }

unfoldable pub alter : (Slot → Slot) → ℕ → Domain → Option Domain
alter g i d = get_elem? d.fds i >>= λ s. some (record d { fds = set d.fds i (g s) })

unfoldable pub taken : Written → List ℕ → List ℕ
taken fails bytes = []
taken (wrote n) bytes = take n bytes

-- Behind the answer: `events` change where bytes are left.
unfoldable pub settle : Bool → ℕ → Domain → Option Domain
settle false i d = some d
settle true i d = alter wait_out i d

module _ (fresh : ℕ → List ℕ) (calls : Calls) (i f : ℕ) where
  -- The answer, once `serve` has taken it off the buffer.
  unfoldable pub reply : Domain → Translation → Buffer → Option RttPackage → Option Turn
  reply d t b none = alter wait_in i (with_translation f (record t { rbuffer = b }) d) >>= λ e.
      some (continues e [])
  reply d t b (some pkg) = do
    w ← keep_unsent fresh t.wbuffer (package_bytes pkg) calls.answered calls.eagain
    e ← settle w.1 i (with_translation f (record t { rbuffer = b; wbuffer = w.0 }) d)
    some (falls e (answers f (taken calls.answered (package_bytes pkg)) ∷ []))

  -- The body under POLLIN. A read of no bytes ends the connection: the result is compared with EAGAIN,
  -- which is positive.
  unfoldable pub receive : Domain → Option (List ℕ) → Option Turn
  receive d none = dispose d i >>= λ e. some (continues e (shuts f ∷ []))
  receive d (some bytes) = do
    t ← translation_of f d.translations
    r ← serve fresh t.rbuffer bytes calls.recv_time calls.send_time
    reply d t r.0 r.1

  unfoldable pub on_in : Domain → Turn
  on_in d = or_fault (receive d calls.read)

  -- The body under POLLOUT, by what write(2) returns, on the bytes that it is given.
  unfoldable pub drain : Domain → Translation → List ℕ → Written → Option Turn
  drain d t held fails =
      if calls.wouldblock
      then (alter wait_out i d >>= λ e. some (falls e []))
      else (dispose d i >>= λ e. some (falls e (shuts f ∷ [])))
  drain d t held (wrote n) =
      if n == readed_size t.wbuffer
      then (dispose d i >>= λ e. some (falls e (drains f (take n held) ∷ shuts f ∷ [])))
      else (do
        b ← skip t.wbuffer n
        e ← alter wait_out i (with_translation f (record t { wbuffer = b }) d)
        some (falls e (drains f (take n held) ∷ [])))

  -- `wbuff.peek()` is the pointer `buf_ + readindex_`, and write(2) is given all the bytes of the buffer
  -- from there on, so that a buffer whose bytes wrap round is read past the end of its array.
  unfoldable pub on_out : Domain → Turn
  on_out d = or_fault (do
    t ← translation_of f d.translations
    held ← copy_out t.wbuffer.buf t.wbuffer.readindex (readed_size t.wbuffer)
    drain d t held calls.drained)

  -- The body under POLLERR.
  unfoldable pub on_err : Domain → Turn
  on_err d =
      if calls.eintr then continues d [] else or_fault (dispose d i >>= λ e. some (returns e []))

  -- The three parts, by the bits of `revents`, which none of them changes.
  unfoldable pub turn : Bits → Domain → Turn
  turn revents d =
      and_then
        (and_then (if revents.pollin then on_in d else falls d [])
          (λ e. if revents.pollout then on_out e else falls e []))
        (λ e. if revents.pollerr then on_err e else falls e [])
