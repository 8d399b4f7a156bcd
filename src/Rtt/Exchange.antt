-- ===== src/Rtt/Exchange.antt =====
-- One exchange between the client and the server of set/rtt, end to end.
use ex_netlink.Base.{
  ℕ, ◌+◌, ◌-◌, ◌%◌, ◌^◌, ◌≤◌, ◌<◌, ◌≡◌, refl, sym, subst, ap, ap₂, ◌∙◌, Option, none, some, List,
  [], ◌++◌, arith, length, take, All, All-append, length-append, lt→ltb, le→ltb,
}
use ex_netlink.Bytes.{
  le_bytes, le_value, be_value, network2host, host2network, length-le_bytes, All-le_bytes,
  be_value-le_bytes, le_value-le_bytes, host2network-lt, network2host-host2network,
  host2network-zero,
}
use ex_netlink.Buffer.{Buffer, circulation_buffer, readed_size, peek, skip}
use ex_netlink.Buffer.Inv.{IsValid, contents, length-contents, circulation_buffer-IsValid}
use ex_netlink.Buffer.Append.{append_tail}
use ex_netlink.Buffer.Straight.{Holds, skip-Holds}
use ex_netlink.Buffer.Peek.{peek-be_value}
use ex_netlink.Rtt.Package.{
  RttPackage, package_bytes, package_of, request, received, result, read_package, answer, serve,
  rbuffer, exchange, sizeof_rtt_package,
}

-- Reading one 8-byte field off the front.
take_field :
    {b : Buffer} (v : ℕ) (rest : List ℕ)
    → v < 256 ^ 8
    → All (λ x. x < 256) rest
    → Holds b (le_bytes 8 (host2network 8 v) ++ rest)
    → (peek 8 b ≡ some v) × (c : Buffer) × (skip b 8 ≡ some c) × Holds c rest
take_field {b} v rest small bytes h =
    let (c, skips, holds) = skip-Holds 8 h size_le in
    (
      peek-be_value 8 valid all enough (λ wrapped. absurd (omega (arith, straight)))
          ∙ ap some (ap be_value front ∙ be_value-le_bytes 8 v small),
      c,
      skips,
      holds,
    )
  where
    open h use {valid, straight, held}

    field : List ℕ
    field = le_bytes 8 (host2network 8 v)

    size_le : 8 ≤ length (field ++ rest)
    size_le = omega (arith, length-append {0} field rest, length-le_bytes 8 (host2network 8 v))

    all : All (λ x. x < 256) (contents b)
    all =
        subst (All (λ x. x < 256)) (sym held)
          (All-append (λ x. x < 256) field rest (All-le_bytes 8 (host2network 8 v)) bytes)

    enough : 8 ≤ readed_size b
    enough = omega (arith, length-contents valid, ap (length {A = ℕ}) held, size_le)

    front : take 8 (contents b) ≡ field
    front = ap (take 8) held ∙ refl

-- The bytes of a package whose fields have been converted to network order.
abbrev pub wire : RttPackage → List ℕ
wire p =
    le_bytes 8 (host2network 8 p.c_send_ts)
    ++ (le_bytes 8 (host2network 8 p.s_recv_ts) ++ (le_bytes 8 (host2network 8 p.s_send_ts) ++ []))

pub record IsStamps (p : RttPackage) : Type 0 where
  pub c_send_in : p.c_send_ts < 2 ^ 64
  pub s_recv_in : p.s_recv_ts < 2 ^ 64
  pub s_send_in : p.s_send_ts < 2 ^ 64

All-field :
    (v : ℕ) (rest : List ℕ)
    → All (λ x. x < 256) rest
    → All (λ x. x < 256) (le_bytes 8 (host2network 8 v) ++ rest)
All-field v rest h =
    All-append (λ x. x < 256) (le_bytes 8 (host2network 8 v)) rest
      (All-le_bytes 8 (host2network 8 v)) h

read_package_lem :
    {b : Buffer} (p : RttPackage)
    → IsStamps p
    → Holds b (wire p)
    → (c : Buffer) × (read_package b ≡ some (p, c)) × Holds c []
unfolding read_package
read_package_lem {b} p small h =
    let (e₁, c₁, s₁, h₁) =
      take_field p.c_send_ts _ small.c_send_in
        (All-field p.s_recv_ts (le_bytes 8 (host2network 8 p.s_send_ts) ++ [])
          (All-field p.s_send_ts [] tt))
        h in
    let (e₂, c₂, s₂, h₂) =
      take_field p.s_recv_ts _ small.s_recv_in (All-field p.s_send_ts [] tt) h₁ in
    let (e₃, c₃, s₃, h₃) = take_field p.s_send_ts _ small.s_send_in tt h₂ in
    (c₃, rw (e₁, s₁, e₂, s₂, e₃, s₃), h₃)

module _ (fresh : ℕ → List ℕ) (recv_time send_time : ℕ) where
  -- Bytes that complete a package, on a buffer that holds the bytes before them: the server answers
  -- exactly that package, with its two times, and its buffer is empty again.
  pub serve_whole :
      {b : Buffer} (p : RttPackage) (before bytes : List ℕ)
      → IsStamps p
      → IsValid b
      → b.readindex ≤ b.writeindex
      → b.writeindex + length bytes ≤ b.len
      → contents b ≡ before
      → before ++ bytes ≡ wire p
      → (c : Buffer) × (serve fresh b bytes recv_time send_time
          ≡ some (c, some (answer p recv_time send_time)))
        × (contents c ≡ [])
  unfolding serve
  serve_whole {b} p before bytes small v u room held whole =
      let (c, e, a, s) = append_tail fresh bytes v u room in
      let all : contents c ≡ wire p = a.added ∙ ap (λ t. t ++ bytes) held ∙ whole in
      let (d, r, h) =
        read_package_lem p small (record { valid = a.valid; straight = s; held = all }) in
      (
        d,
        rw (
          e,
          le→ltb (readed_size c) 24
              (omega (arith, length-contents a.valid, ap (length {A = ℕ}) all)),
          r,
        ),
        h.held,
      )

  -- Fewer bytes than a package: the server keeps them all and waits.
  pub serve_part :
      {b : Buffer} (before bytes : List ℕ)
      → IsValid b
      → b.readindex ≤ b.writeindex
      → b.writeindex + length bytes ≤ b.len
      → contents b ≡ before
      → length before + length bytes < sizeof_rtt_package
      → (c : Buffer) × (serve fresh b bytes recv_time send_time ≡ some (c, none))
        × (contents c ≡ before ++ bytes)
  unfolding serve
  serve_part {b} before bytes v u room held short =
      let (c, e, a, s) = append_tail fresh bytes v u room in
      let all : contents c ≡ before ++ bytes = a.added ∙ ap (λ t. t ++ bytes) held in
      (
        c,
        rw (
          e,
          lt→ltb (readed_size c) 24 (
              omega (
                arith,
                length-contents a.valid,
                ap (length {A = ℕ}) all,
                length-append {0} before bytes,
              )),
        ),
        all,
      )

-- A package that crosses the wire arrives as it was before the conversion to network order.
pub received-answer :
    (p : RttPackage) (t₁ t₂ : ℕ)
    → p.c_send_ts < 2 ^ 64
    → t₁ < 2 ^ 64
    → t₂ < 2 ^ 64
    → received (package_of (package_bytes (answer p t₁ t₂)))
      ≡ record { c_send_ts = p.c_send_ts; s_recv_ts = t₁; s_send_ts = t₂ }
unfolding received package_of answer
received-answer p t₁ t₂ h₀ h₁ h₂ = λ i. record {
  c_send_ts = field p.c_send_ts h₀ i;
  s_recv_ts = field t₁ h₁ i;
  s_send_ts = field t₂ h₂ i;
}
  where
    field : (v : ℕ) → v < 2 ^ 64 → network2host 8 (le_value (le_bytes 8 (host2network 8 v))) ≡ v
    field v h =
        ap (network2host 8) (le_value-le_bytes 8 (host2network 8 v) (host2network-lt 8 v))
        ∙ (network2host-host2network 8 v h).0

pub rbuffer_lem :
    IsValid rbuffer
    × (contents rbuffer ≡ [])
    × (rbuffer.readindex ≤ rbuffer.writeindex)
    × (rbuffer.writeindex + 24 ≤ rbuffer.len)
unfolding rbuffer circulation_buffer
rbuffer_lem =
    (circulation_buffer-IsValid 72 (omega arith) (omega arith), refl, omega arith, omega arith)

pub request-wire :
    (t : ℕ)
    → [] ++ package_bytes (request t)
      ≡ wire (record { c_send_ts = t; s_recv_ts = 0; s_send_ts = 0 })
unfolding request
request-wire t =
    λ i. le_bytes 8 (host2network 8 t) ++ (le_bytes 8 (null i) ++ (le_bytes 8 (null i) ++ []))
  where
    null : 0 ≡ host2network 8 0
    null = sym (host2network-zero)

-- What one exchange computes, in terms of the four clock readings alone.
exchange_lem :
    (fresh : ℕ → List ℕ) (t₀ t₁ t₂ t₃ : ℕ)
    → t₀ < 2 ^ 64
    → t₁ < 2 ^ 64
    → t₂ < 2 ^ 64
    → exchange fresh t₀ t₁ t₂ t₃
      ≡ some (result (record { c_send_ts = t₀; s_recv_ts = t₁; s_send_ts = t₂ }) t₃)
unfolding exchange
exchange_lem fresh t₀ t₁ t₂ t₃ h₀ h₁ h₂ =
    let p : RttPackage = record { c_send_ts = t₀; s_recv_ts = 0; s_send_ts = 0 } in
    let (valid, empty, straight, room) = rbuffer_lem in
    let (c, e, done) =
      serve_whole fresh t₁ t₂ p [] (package_bytes (request t₀)) (omega (arith, h₀)) valid straight
        (omega (arith, room)) empty (request-wire t₀) in
    rw (e, received-answer p t₁ t₂ h₀ h₁ h₂)

-- A whole exchange, during which the client's clock stays below 2^64, with a server whose clock is
-- ahead of the client's by any `θ` (modulo 2^64): the round-trip time that the client computes is the
-- sum of the two delays of the wire, whatever `θ` is and however long the server took.
pub exchange-rtt :
    (fresh : ℕ → List ℕ) (t₀ d₁ work d₂ θ : ℕ)
    → t₀ + d₁ + work + d₂ < 2 ^ 64
    → θ < 2 ^ 64
    → (offset : ℕ) × (exchange fresh t₀
          ((t₀ + d₁ + θ) % 2 ^ 64)
          ((t₀ + d₁ + work + θ) % 2 ^ 64)
          (t₀ + d₁ + work + d₂)
        ≡ some (d₁ + d₂, offset))
unfolding result
exchange-rtt fresh t₀ d₁ work d₂ θ h k = (
  (result stamps (t₀ + d₁ + work + d₂)).1,
  exchange_lem fresh t₀ _ _ (t₀ + d₁ + work + d₂) (omega arith) (omega arith) (omega arith)
      ∙ ap (λ r. some (r, (result stamps (t₀ + d₁ + work + d₂)).1)) rtt,
)
  where
    stamps : RttPackage
    stamps = record {
      c_send_ts = t₀;
      s_recv_ts = (t₀ + d₁ + θ) % 2 ^ 64;
      s_send_ts = (t₀ + d₁ + work + θ) % 2 ^ 64;
    }

    rtt : (result stamps (t₀ + d₁ + work + d₂)).0 ≡ d₁ + d₂
    rtt = omega arith

module _ (fresh : ℕ → List ℕ) (t₀ d work θ : ℕ) (h : t₀ + d + work + d + θ < 2 ^ 63) where
  abbrev pub symmetric : Option (ℕ × ℕ)
  symmetric =
      exchange fresh t₀ ((t₀ + d + θ) % 2 ^ 64) ((t₀ + d + work + θ) % 2 ^ 64) (t₀ + d + work + d)

  -- With the same delay `d` both ways and a server clock ahead by at most `d`, the client's estimate
  -- of the difference between the clocks is exact.
  pub exchange-offset : θ ≤ d → symmetric ≡ some (d + d, θ)
  unfolding result
  exchange-offset le =
      exchange_lem fresh t₀ _ _ (t₀ + d + work + d) (omega arith) (omega arith) (omega arith)
      ∙ ap₂ (λ r o. some (r, o)) (omega arith) (omega arith)

  -- With a server clock ahead by more than `d`, one of the two unsigned differences wraps round: the
  -- estimate is 2^63 - θ.
  exchange-offset_wraps : d < θ → symmetric ≡ some (d + d, 2 ^ 63 - θ)
  unfolding result
  exchange-offset_wraps lt =
      exchange_lem fresh t₀ _ _ (t₀ + d + work + d) (omega arith) (omega arith) (omega arith)
      ∙ ap₂ (λ r o. some (r, o)) (omega arith) (omega arith)
