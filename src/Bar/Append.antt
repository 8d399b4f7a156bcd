-- ===== src/Bar/Append.antt =====
-- When the appends of `Bar` succeed, and what they leave.
use mathlib.Core.Option.{some-injective}
use ex_netlink.Base.{
  ℕ, zero, suc, ◌+◌, ◌^◌, ◌≤◌, ◌<◌, ◌≡◌, refl, subst, ◌⊎◌, inl, inr, Option, Option-cases, none,
  some, List, [], ◌∷◌, true, false, leb, ◌==◌, ◌>>=◌, add64, mul64, length, overwrite, set, slice,
  length-slice, ◌*◌, ◌++◌, arith, lt→ltb, le→ltb, le→leb, dec_le, dec_lt,
}
use ex_netlink.Bar.Blocks.{IsValid, live-last, set-last}
use ex_netlink.Bar.Defs.{
  Store, Bar, live, put, read, write, free, move, destroy, copy_swap, construct, grow, put_char,
  append_char, put_str, append_str,
}

==_less : (a b : ℕ) → a < b → (a == b) ≡ false
==_less a b h = ground arith

==_same : (a b : ℕ) → a ≡ b → (a == b) ≡ true
==_same a b h = ground arith

lt→leb : (a b : ℕ) → a < b → leb b a ≡ false
lt→leb a b h = ground arith

live-set-none : (h : Store) (a : ℕ) → live (set h a none) (some a) ≡ none
unfolding live
live-set-none [] a = refl
live-set-none (x ∷ h) zero = refl
live-set-none (x ∷ h) (suc a) = live-set-none h a

refl_none : (h : Store) → live h none ≡ none
unfolding live
refl_none h = refl

none-some {ℓ} : {A : Type ℓ} {a : A} → none ≡ some a → ⊥
none-some e = cc

live-free : (h h' : Store) (p : Option ℕ) → free h p ≡ some h' → live h' p ≡ none
unfolding free
live-free h h' none e = refl_none h'
live-free h h' (some a) e = elim (Option-cases (live h (some a))) [
  | inl z ↦ absurd (none-some (rw z at e))
  | inr (block, z) ↦
      subst (λ (k : Store). live k (some a) ≡ none) (some-injective _ h' (rw z at e))
        (live-set-none h a)
]

-- A `Bar` that has grown points to a freed block.
live-grow :
    (fresh : ℕ → List ℕ) (h h' : Store) (b c : Bar) (n : ℕ)
    → grow fresh h b n ≡ some (h', c)
    → live h' c.data_ ≡ none
unfolding grow copy_swap destroy move free
live-grow fresh h h' b c n e = elim (Option-cases (construct fresh h n b.data_ b.len)) [
  | inl z ↦ absurd (none-some (rw z at e))
  | inr (r, z) ↦ freed r (rw z at e)
]
  where
    freed :
        (r : Store × Bar)
        → (◌>>=◌ {B = Store × Bar} (free r.0 r.1.data_) (λ k. some (k, r.1))) ≡ some (h', c)
        → live h' c.data_ ≡ none
    freed r e = elim (Option-cases (free r.0 r.1.data_)) [
      | inl z ↦ absurd (none-some (rw z at e))
      | inr (k, z) ↦
          subst (λ (s : Store × Bar). live s.0 s.1.data_ ≡ none)
            (some-injective (k, r.1) (h', c) (rw z at e)) (live-free r.0 k r.1.data_ z)
    ]

write_dangling :
    (h : Store) (p : Option ℕ) (i : ℕ) (bytes : List ℕ) → live h p ≡ none → write h p i bytes ≡ none
unfolding write
write_dangling h p i bytes e = rw e refl

-- A `Bar` that grows gets a block of its own, which is freed at once, at an address of no other block.
grow_lem :
    (fresh : ℕ → List ℕ)
    → ((n : ℕ) → length (fresh n) ≡ n)
    → {h : Store} {b : Bar} {block : List ℕ} (n : ℕ) → IsValid h b block
    → b.len ≤ n
    → grow fresh h b n
      ≡ some (h ++ (none ∷ []), record { data_ = some (length h); capacity = n; len = b.len })
unfolding grow construct copy_swap destroy move free read write put
grow_lem fresh sized {h} {b} {block} n v le =
    rw
      (
        v.held,
        le→leb b.len (length block) (omega (arith, v)),
        live-last h (fresh n),
        le→leb (0 + length (slice block 0 b.len)) (length (fresh n))
            (omega (arith, v, sized n, size)),
        set-last h (some (fresh n)) (some (overwrite (fresh n) 0 (slice block 0 b.len))),
        live-last h (overwrite (fresh n) 0 (slice block 0 b.len)),
        set-last h (some (overwrite (fresh n) 0 (slice block 0 b.len))) none,
      )
      refl
  where
    size : length (slice block 0 b.len) ≡ b.len
    size = length-slice block 0 b.len (omega (arith, v))

-- `append(str, len)` of fewer than 2^62 bytes, on a string whose block has the size of its capacity,
-- less than 2^62, where malloc(3) returns blocks of the size it is asked for. Bytes that fit are
-- written behind the first `len_` bytes, and `len_` stays as it is, so that the next `append` writes
-- over them. Where they do not fit, the string grows: it has a pointer to a new block that has been
-- freed, the old block stays in the store, and the write is a fault.
pub append_str_lem :
    (fresh : ℕ → List ℕ)
    → ((n : ℕ) → length (fresh n) ≡ n)
    → {h : Store} {b : Bar} {block : List ℕ} (str : List ℕ) → IsValid h b block
    → length str < 2 ^ 62
    → ((b.len + length str ≤ b.capacity)
        × (append_str fresh h b str ≡ some (put h b.data_ (overwrite block b.len str), b)))
      ⊎ ((b.capacity < b.len + length str)
          × (grow fresh h b (add64 (mul64 b.capacity 2) (length str))
              ≡ some (
                h ++ (none ∷ []),
                record {
                  data_ = some (length h);
                  capacity = 2 * b.capacity + length str;
                  len = b.len;
                },
              ))
          × (append_str fresh h b str ≡ none))
unfolding append_str put_str write
append_str_lem fresh sized {h} {b} {block} str v s = elim (dec_le (b.len + length str) b.capacity) [
  | yes fits ↦ inl (
    fits,
    rw
        (
          le→ltb b.capacity (add64 b.len (length str)) (omega (arith, v)),
          v.held,
          le→leb (b.len + length str) (length block) (omega (arith, v)),
        )
        refl,
  )
  | no full ↦ inr (
    omega arith,
    rw wide (grow_lem fresh sized (2 * b.capacity + length str) v (omega (arith, v))),
    rw (lt→ltb b.capacity (add64 b.len (length str)) (omega (arith, v)))
        (dangles (grow fresh h b (add64 (mul64 b.capacity 2) (length str))) refl),
  )
]
  where
    wide : add64 (mul64 b.capacity 2) (length str) ≡ 2 * b.capacity + length str
    wide = omega (arith, v)

    dangles :
        (o : Option (Store × Bar))
        → grow fresh h b (add64 (mul64 b.capacity 2) (length str)) ≡ o
        → (o >>= put_str str) ≡ none
    dangles none e = refl
    dangles (some (k, c)) e = rw (live-grow fresh h k b c _ e) refl

-- `append(c)` writes its byte one place behind the end, where no byte follows, and counts it; so the
-- byte at `len_` stays undefined. With one free byte or none it writes outside the block or to a
-- freed one.
append_char_lem :
    (fresh : ℕ → List ℕ) {h : Store} {b : Bar} {block : List ℕ} (ch : ℕ)
    → IsValid h b block
    → ((b.len + 1 < b.capacity)
        × (append_char fresh h b ch
            ≡ some (
              put h b.data_ (overwrite block (b.len + 1) (ch ∷ [])),
              record b { len = b.len + 1 },
            )))
      ⊎ ((b.capacity ≤ b.len + 1) × (append_char fresh h b ch ≡ none))
unfolding append_char put_char write
append_char_lem fresh {h} {b} {block} ch v = elim (dec_lt (b.len + 1) b.capacity) [
  | yes fits ↦ inl (
    fits,
    rw
        (
          ==_less b.len b.capacity (omega arith),
          one,
          v.held,
          le→leb (b.len + 1 + 1) (length block) (omega (arith, v)),
        )
        refl,
  )
  | no full ↦ inr (
    omega arith,
    elim (dec_lt b.len b.capacity) [
      | yes last ↦
          rw
            (
              ==_less b.len b.capacity last,
              one,
              v.held,
              lt→leb (length block) (b.len + 1 + 1) (omega (arith, v)),
            )
            refl
      | no none_left ↦
          rw (==_same b.len b.capacity (omega (arith, v)))
            (dangles (grow fresh h b (mul64 b.capacity 2)) refl)
    ],
  )
]
  where
    one : add64 b.len 1 ≡ b.len + 1
    one = omega (arith, v)

    dangles :
        (o : Option (Store × Bar))
        → grow fresh h b (mul64 b.capacity 2) ≡ o
        → (o >>= put_char ch) ≡ none
    dangles none e = refl
    dangles (some (k, c)) e = rw (live-grow fresh h k b c _ e) refl
