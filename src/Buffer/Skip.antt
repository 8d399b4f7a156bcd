-- ===== src/Buffer/Skip.antt =====
-- `skip`: it drops exactly the bytes that it is told to.
use ex_netlink.Base.{
  dec_le, ℕ, ◌+◌, ◌-◌, ◌≤◌, ◌<◌, ◌≡◌, refl, sym, ap, ◌∙◌, ◌⊎◌, inl, inr, some, [], ◌++◌, ◌&&◌,
  arith, ltb, leb, if◌then◌else◌, length, drop, slice, length-slice, drop-slice, drop-append_le,
  drop-append_add, drop_all, slice_none, dec_le,
}
use ex_netlink.Buffer.Defs.{padding, Buffer, readed_size, writed_size, skip, retrieve_all}
use ex_netlink.Buffer.Inv.{
  IsValid, contents, contents_straight, contents_wrapped, readed_size_lem, length-contents,
}

-- Where the read index comes to stand after `n` bytes are skipped.
abbrev pub skipped : Buffer → ℕ → Buffer
skipped b n =
    if ltb n (readed_size b)
    then record b {
      readindex =
          if ltb b.writeindex b.readindex && leb (b.len - b.readindex) n
          then n - (b.len - b.readindex)
          else b.readindex + n;
    }
    else retrieve_all b

pub skip_lem : {b : Buffer} (n : ℕ) → IsValid b → n ≤ readed_size b → skip b n ≡ some (skipped b n)
unfolding skip readed_size
skip_lem n v h = ground (arith, v)

module _ {b : Buffer} (v : IsValid b) (n : ℕ) where
  contents-skip_unwrapped :
      b.readindex ≤ b.writeindex
      → n ≤ b.writeindex - b.readindex
      → contents (record b { readindex = b.readindex + n }) ≡ drop n (contents b)
  contents-skip_unwrapped h le =
      contents_straight (record b { readindex = b.readindex + n }) (omega arith)
      ∙ sym (drop-slice b.buf b.readindex (b.writeindex - b.readindex) n _ _ refl (omega arith))
      ∙ ap (drop n) (sym (contents_straight b h))

  contents-skip_upper :
      b.writeindex < b.readindex
      → n < b.len - b.readindex
      → contents (record b { readindex = b.readindex + n }) ≡ drop n (contents b)
  contents-skip_upper h le =
      contents_wrapped (record b { readindex = b.readindex + n }) (omega arith)
      ∙ ap (λ c. c ++ slice b.buf 0 b.writeindex)
          (sym (drop-slice b.buf b.readindex (b.len - b.readindex) n _ _ refl (omega arith)))
      ∙ sym (
          drop-append_le n (slice b.buf b.readindex (b.len - b.readindex))
            (slice b.buf 0 b.writeindex)
            (omega (arith, v, length-slice {0} b.buf b.readindex (b.len - b.readindex))))
      ∙ ap (drop n) (sym (contents_wrapped b h))

  contents-skip_lower :
      b.writeindex < b.readindex
      → b.len - b.readindex ≤ n
      → n ≤ b.len - b.readindex + b.writeindex
      → contents (record b { readindex = n - (b.len - b.readindex) }) ≡ drop n (contents b)
  contents-skip_lower h ge le =
      contents_straight (record b { readindex = n - (b.len - b.readindex) }) (omega arith)
      ∙ sym (
          drop-slice b.buf 0 b.writeindex (n - (b.len - b.readindex)) _ _ (omega arith)
            (omega arith))
      ∙ ap (λ k. drop k (slice b.buf 0 b.writeindex)) (omega (arith, upper))
      ∙ sym (
          drop-append_add n (slice b.buf b.readindex (b.len - b.readindex))
            (slice b.buf 0 b.writeindex) (omega (arith, upper)))
      ∙ ap (drop n) (sym (contents_wrapped b h))
    where
      upper : length (slice b.buf b.readindex (b.len - b.readindex)) ≡ b.len - b.readindex
      upper = length-slice b.buf b.readindex (b.len - b.readindex) (omega (arith, v))

contents-retrieve_all : (b : Buffer) → contents (retrieve_all b) ≡ []
unfolding retrieve_all
contents-retrieve_all b =
    contents_straight (record b { readindex = padding; writeindex = padding }) (omega arith)
    ∙ slice_none b.buf padding

-- The three ends of `skip`, each with its condition.
pub skipped_cases :
    {b : Buffer} (n : ℕ)
    → IsValid b
    → n ≤ readed_size b
    → ((skipped b n ≡ retrieve_all b) × (n ≡ readed_size b))
      ⊎ ((skipped b n ≡ record b { readindex = b.readindex + n })
          × (n < readed_size b)
          × ((b.readindex ≤ b.writeindex) ⊎ (n < b.len - b.readindex)))
      ⊎ ((skipped b n ≡ record b { readindex = n - (b.len - b.readindex) })
          × (n < readed_size b)
          × (b.writeindex < b.readindex)
          × (b.len - b.readindex ≤ n))
skipped_cases {b} n v h = ground (arith, v)

pub contents-skipped :
    {b : Buffer} (n : ℕ)
    → IsValid b
    → n ≤ readed_size b
    → contents (skipped b n) ≡ drop n (contents b)
contents-skipped {b} n v h = elim (skipped_cases n v h) [
  | inl (e, all) ↦
      ap contents e
      ∙ contents-retrieve_all b
      ∙ sym (drop_all n (contents b) (omega (arith, length-contents v)))
  | inr (inl (e, lt, c)) ↦ ap contents e ∙ elim (readed_size_lem v) [
    | inl (u, r) ↦ contents-skip_unwrapped v n u (omega arith)
    | inr (w, r) ↦ contents-skip_upper v n w (omega arith)
  ]
  | inr (inr (e, lt, w, ge)) ↦
      ap contents e ∙ contents-skip_lower v n w ge (omega (arith, readed_size_lem v))
]

pub skipped-IsValid :
    {b : Buffer} (n : ℕ)
    → IsValid b
    → n ≤ readed_size b
    → padding ≤ b.len
    → padding ≤ (skipped b n).readindex
    → IsValid (skipped b n)
unfolding retrieve_all
skipped-IsValid {b} n v h = ground (arith, v, readed_size_lem v)

-- `skip n` of at most `readed_size` bytes succeeds and drops exactly the first `n` unread bytes. It
-- keeps the invariant unless the read index that it computes is below `padding`.
pub skip-contents :
    {b : Buffer} (n : ℕ)
    → IsValid b
    → n ≤ readed_size b
    → (c : Buffer) × (skip b n ≡ some c)
      × (contents c ≡ drop n (contents b))
      × (IsValid c ⊎ (c.readindex < padding))
skip-contents {b} n v h =
    let c = skipped b n in
    (
      c,
      skip_lem n v h,
      contents-skipped n v h,
      elim (dec_le padding c.readindex) [
        | yes g ↦ inl (skipped-IsValid n v h (omega (arith, v)) g)
        | no g ↦ inr (omega arith)
      ],
    )

-- If the skipped bytes end less than `padding` bytes behind the start of the array, `skip` leaves a
-- read index below `padding`, and `writed_size`, which subtracts `padding` from it, wraps round: it
-- reports more free bytes than the array has.
skip-writed_size_wraps :
    {b : Buffer} (n : ℕ)
    → IsValid b
    → b.writeindex < b.readindex
    → n < readed_size b
    → b.len - b.readindex ≤ n
    → n < b.len - b.readindex + padding
    → (c : Buffer) × (skip b n ≡ some c) × (c.len < writed_size c)
unfolding writed_size
skip-writed_size_wraps {b} n v w lt ge near =
    (skipped b n, skip_lem n v (omega arith), ground (arith, v))
