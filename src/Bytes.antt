-- ===== src/Bytes.antt =====
-- set/buffer/yendian.h: byte order. A value of a w-byte unsigned type is a number below 256 ^ w; the
-- machine is little-endian, so `htobeXX` and `beXXtoh` of <endian.h> reverse its w bytes.
use ex_netlink.Base.{
  ℕ, zero, suc, ◌+◌, ◌*◌, ◌/◌, ◌%◌, ◌^◌, ◌<◌, ◌≡◌, refl, sym, ap, ap₂, ◌∙◌, List, [], ◌∷◌, ◌++◌,
  arith, length, All, length-append, All-append,
}
use mathlib.Core.List.{reverse, reverse-append, reverse-reverse}
use native.Mathlib.Nat.{pow-suc}

-- The value of bytes in memory, read as a little-endian and as a big-endian number.
abbrev pub le_value : List ℕ → ℕ
le_value [] = 0
le_value (x ∷ xs) = x + 256 * le_value xs

abbrev pub be_value : List ℕ → ℕ
be_value [] = 0
be_value (x ∷ xs) = x * 256 ^ length xs + be_value xs

-- The bytes of a w-byte value, in memory order on the little-endian machine.
abbrev pub le_bytes : ℕ → ℕ → List ℕ
le_bytes zero v = []
le_bytes (suc w) v = v % 256 ∷ le_bytes w (v / 256)

-- The w-byte reversal of `htobe16`, `htobe32`, `htobe64` and of their inverses; the identity at one
-- byte.
unfoldable pub byte_reverse : ℕ → ℕ → ℕ
byte_reverse zero v = 0
byte_reverse (suc w) v = v % 256 * 256 ^ w + byte_reverse w (v / 256)

-- `host2network<T>` and `network2host<T>` at a T of w bytes.
unfoldable pub host2network : ℕ → ℕ → ℕ
host2network w v = byte_reverse w v

unfoldable pub network2host : ℕ → ℕ → ℕ
network2host w v = byte_reverse w v

byte_reverse-le_value :
    (xs : List ℕ) → All (λ x. x < 256) xs → byte_reverse (length xs) (le_value xs) ≡ be_value xs
unfolding byte_reverse
byte_reverse-le_value [] h = refl
byte_reverse-le_value (x ∷ xs) h =
    ap₂ (λ a b. a * 256 ^ length xs + b) (omega (arith, h.0))
      (ap (byte_reverse (length xs)) (omega (arith, h.0)) ∙ byte_reverse-le_value xs h.1)

-- Reading a value from the bytes of a network message in memory, and converting it, gives the
-- number that the bytes spell in network order.
pub network2host-le_value :
    (w : ℕ) (xs : List ℕ)
    → length xs ≡ w
    → All (λ x. x < 256) xs
    → network2host w (le_value xs) ≡ be_value xs
unfolding network2host
network2host-le_value w xs e h = rw (← e) (byte_reverse-le_value xs h)

pub le_value-append :
    (xs ys : List ℕ) → le_value (xs ++ ys) ≡ le_value xs + 256 ^ length xs * le_value ys
le_value-append [] ys = omega arith
le_value-append (x ∷ xs) ys = rw (le_value-append xs ys, pow-suc) (omega arith)

length-reverse : (xs : List ℕ) → length (reverse xs) ≡ length xs
length-reverse [] = refl
length-reverse (x ∷ xs) =
    rw (reverse-append (x ∷ []) xs)
      (omega (arith, length-append {0} (reverse xs) (x ∷ []), length-reverse xs))

be_value-reverse : (xs : List ℕ) → be_value xs ≡ le_value (reverse xs)
be_value-reverse [] = refl
be_value-reverse (x ∷ xs) =
    rw
      (
        reverse-append (x ∷ []) xs,
        le_value-append (reverse xs) (x ∷ []),
        length-reverse xs,
        be_value-reverse xs,
      )
      (omega arith)

All-reverse : (xs : List ℕ) → All (λ x. x < 256) xs → All (λ x. x < 256) (reverse xs)
All-reverse [] h = tt
All-reverse (x ∷ xs) h =
    rw (reverse-append (x ∷ []) xs)
      (All-append (λ x. x < 256) (reverse xs) (x ∷ []) (All-reverse xs h.1) (h.0, tt))

pub length-le_bytes : (w v : ℕ) → length (le_bytes w v) ≡ w
length-le_bytes zero v = refl
length-le_bytes (suc w) v = ap suc (length-le_bytes w (v / 256))

pub All-le_bytes : (w v : ℕ) → All (λ x. x < 256) (le_bytes w v)
All-le_bytes zero v = tt
All-le_bytes (suc w) v = (omega arith, All-le_bytes w (v / 256))

pub le_value-le_bytes : (w v : ℕ) → v < 256 ^ w → le_value (le_bytes w v) ≡ v
le_value-le_bytes zero v h = omega arith
le_value-le_bytes (suc w) v h =
    let below : v < 256 ^ w * 256 = rw pow-suc at h in
    omega (arith, le_value-le_bytes w (v / 256) (omega arith))

-- Converting a w-byte value to network order and back, or from it and back, changes nothing.
pub network2host-host2network :
    (w v : ℕ)
    → v < 256 ^ w
    → (network2host w (host2network w v) ≡ v) × (host2network w (network2host w v) ≡ v)
unfolding network2host host2network
network2host-host2network w v h = (twice, twice)
  where
    bytes : List ℕ
    bytes = le_bytes w v

    once : byte_reverse w v ≡ le_value (reverse bytes)
    once =
        ap (byte_reverse w) (sym (le_value-le_bytes w v h))
        ∙ network2host-le_value w bytes (length-le_bytes w v) (All-le_bytes w v)
        ∙ be_value-reverse bytes

    twice : byte_reverse w (byte_reverse w v) ≡ v
    twice =
        ap (byte_reverse w) once
        ∙ network2host-le_value w (reverse bytes) (length-reverse bytes ∙ length-le_bytes w v)
            (All-reverse bytes (All-le_bytes w v))
        ∙ be_value-reverse (reverse bytes)
        ∙ ap le_value (reverse-reverse bytes)
        ∙ le_value-le_bytes w v h

pub le_value-lt : (xs : List ℕ) → All (λ x. x < 256) xs → le_value xs < 256 ^ length xs
le_value-lt [] h = omega arith
le_value-lt (x ∷ xs) h = rw pow-suc (omega (arith, h.0, le_value-lt xs h.1))

digit_lt : (a m r : ℕ) → a < 256 → r < m → a * m + r < m * 256
digit_lt a m r h k = grind arith

pub host2network-lt : (w v : ℕ) → host2network w v < 256 ^ w
unfolding host2network byte_reverse
host2network-lt zero v = omega arith
host2network-lt (suc w) v = rw pow-suc (
    digit_lt (v % 256) (256 ^ w) (byte_reverse w (v / 256)) (omega arith)
      (host2network-lt w (v / 256)))

-- The network-order bytes of a value spell it.
pub be_value-le_bytes : (w v : ℕ) → v < 256 ^ w → be_value (le_bytes w (host2network w v)) ≡ v
be_value-le_bytes w v h =
    sym (
      network2host-le_value w (le_bytes w (host2network w v)) (length-le_bytes w (host2network w v))
        (All-le_bytes w (host2network w v)))
    ∙ ap (network2host w) (le_value-le_bytes w (host2network w v) (host2network-lt w v))
    ∙ (network2host-host2network w v h).0

pub host2network-zero : host2network 8 0 ≡ 0
unfolding host2network byte_reverse
host2network-zero = refl
