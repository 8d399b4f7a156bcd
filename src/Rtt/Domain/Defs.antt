-- ===== src/Rtt/Domain/Defs.antt =====
-- set/rtt/rtt_server.cpp: the members of `RttServer`, onNewConnect, dispose, and the branches of
-- startDomain behind its write.
use ex_netlink.Base.{
  ℕ, zero, suc, Option, none, some, List, [], ◌∷◌, Bool, true, false, ◌==◌, ltb, if◌then◌else◌,
  ◌>>=◌, get_elem?, set, drop,
}
use ex_netlink.Buffer.{Buffer, append}
use ex_netlink.Rtt.Package.{sizeof_rtt_package}
use ex_netlink.Rtt.Translation.{Connector}

-- The bits POLLIN, POLLOUT and POLLERR of an `events` or a `revents`.
pub record Bits : Type 0 where
  pub pollin : Bool
  pub pollout : Bool
  pub pollerr : Bool

abbrev pub no_bits : Bits
no_bits = record { pollin = false; pollout = false; pollerr = false }

-- An entry of `fds`.
pub record Slot : Type 0 where
  pub fd : Option ℕ
  pub events : Bits
  pub revents : Bits

-- The members `fds` and `translations_`, a map from descriptors.
pub record Domain : Type 0 where
  pub fds : List Slot
  pub translations : List (ℕ × Connector)

unfoldable pub has_key : ℕ → List (ℕ × Connector) → Bool
has_key f [] = false
has_key f ((k, c) ∷ t) = if f == k then true else has_key f t

unfoldable pub erase_key : ℕ → List (ℕ × Connector) → List (ℕ × Connector)
erase_key f [] = []
erase_key f ((k, c) ∷ t) = if f == k then erase_key f t else (k, c) ∷ erase_key f t

-- POLLIN | POLLERR
abbrev pub connect_bits : Bits
connect_bits = record { pollin = true; pollout = false; pollerr = true }

-- The first entry of -1 gets the descriptor and keeps its `revents`; without one, an entry is
-- appended.
unfoldable pub place : ℕ → List Slot → List Slot
place f [] = record { fd = some f; events = connect_bits; revents = no_bits } ∷ []
place f (s ∷ ss) = elim s.fd [
  | none ↦ record s { fd = some f; events = connect_bits } ∷ ss
  | some g ↦ s ∷ place f ss
]

-- `f` is the handler of the connector. `none` is the failed assertion. The `Translation` that is made
-- here is dropped: the call of `setData` is commented out.
unfoldable pub on_new_connect : Domain → ℕ → Connector → Option Domain
on_new_connect d f c =
    if has_key f d.translations
    then none
    else some (record { fds = place f d.fds; translations = (f, c) ∷ d.translations })

unfoldable pub clear : List (ℕ × Connector) → Option ℕ → List (ℕ × Connector)
clear t none = t
clear t (some f) = erase_key f t

-- `dispose(i)`; an index outside of the array is a fault.
unfoldable pub dispose : Domain → ℕ → Option Domain
dispose d i = get_elem? d.fds i >>= λ (s : Slot). some (record {
  fds = set d.fds i (record s { fd = none; events = no_bits });
  translations = clear d.translations s.fd;
})

-- What write(2) returns: -1, or the number of bytes that it took.
pub data Written : Type 0 where
  fails : Written
  wrote : ℕ → Written

-- The two branches behind the write: bytes that were not taken go to `wbuffer`, and the connection
-- waits for POLLOUT. With -1, `sizeof(rtt_package) - ws` is 25, one byte more than the package has;
-- with 0, both branches are taken if errno is EAGAIN.
unfoldable pub keep_unsent :
    (ℕ → List ℕ) → Buffer → List ℕ → Written → Bool → Option (Buffer × Bool)
keep_unsent fresh wbuffer pkg fails eagain = none
keep_unsent fresh wbuffer pkg (wrote zero) false = none
keep_unsent fresh wbuffer pkg (wrote zero) true = do
  b ← append fresh wbuffer pkg
  c ← append fresh b pkg
  some (c, true)
keep_unsent fresh wbuffer pkg (wrote (suc n)) eagain =
    if ltb (suc n) sizeof_rtt_package
    then (append fresh wbuffer (drop (suc n) pkg) >>= λ c. some (c, true))
    else some (wbuffer, false)
