-- ===== src/Buffer/Append.antt =====
-- `append` where there is room: it adds exactly its bytes behind the unread ones.
use ex_netlink.Base.{
  ℕ, ◌+◌, ◌-◌, ◌≤◌, ◌<◌, ◌≡◌, refl, sym, ap, ap₂, ◌∙◌, inl, inr, some, List, ◌++◌, arith, length,
  take, drop, slice, overwrite, length-take, length-drop, le→leb, le→ltb, length-overwrite,
  slice-overwrite_before, slice-overwrite_after, slice-overwrite_at, slice_add, take-append-drop,
  append_assoc, dec_le, sub64,
}
use ex_netlink.Buffer.Defs.{
  padding, Buffer, writed_size, copy_in, copy_out, store_straight, store_around, store, append,
}
use ex_netlink.Buffer.Inv.{
  IsValid, contents, contents_straight, contents_wrapped, readed_size_lem, writed_size_lem,
}

pub copy_in-some :
    (buf : List ℕ) (i : ℕ) (bytes : List ℕ)
    → i + length bytes ≤ length buf
    → copy_in buf i bytes ≡ some (overwrite buf i bytes)
unfolding copy_in
copy_in-some buf i bytes h = rw (le→leb _ _ h)

pub copy_out-some :
    (buf : List ℕ) (i k : ℕ) → i + k ≤ length buf → copy_out buf i k ≡ some (slice buf i k)
unfolding copy_out
copy_out-some buf i k h = rw (le→leb _ _ h)

-- What an operation that adds bytes must leave.
pub record Appended (b : Buffer) (bytes : List ℕ) (c : Buffer) : Type 0 where
  pub valid : IsValid c
  pub added : contents c ≡ contents b ++ bytes
  pub unmoved : c.readindex ≡ b.readindex
  pub same_len : c.len ≡ b.len

-- The array after the bytes are written at the write index in one piece.
abbrev straight : Buffer → List ℕ → Buffer
straight b bytes = record b {
  buf = overwrite b.buf b.writeindex bytes;
  writeindex = b.writeindex + length bytes;
}

-- Extending the range that ends at the write index.
slice-extend :
    (buf bytes : List ℕ) (i w n k : ℕ)
    → i ≤ w
    → w + length bytes ≤ length buf
    → n ≡ w + length bytes - i
    → k ≡ w - i
    → slice (overwrite buf w bytes) i n ≡ slice buf i k ++ bytes
slice-extend buf bytes i w n k iw room en ek =
    slice_add (overwrite buf w bytes) i k (length bytes) w n (omega arith) (omega arith)
    ∙ ap₂ ◌++◌ (slice-overwrite_before buf i k w bytes (omega arith))
        (slice-overwrite_at buf w bytes room)

module _ {b : Buffer} (v : IsValid b) (bytes : List ℕ) where
  straight-unwrapped :
      b.readindex ≤ b.writeindex
      → b.writeindex + length bytes ≤ b.len
      → Appended b bytes (straight b bytes)
  straight-unwrapped h room = record {
    valid = ground (arith, length-overwrite b.buf b.writeindex bytes);
    added =
        contents_straight (straight b bytes) (omega arith)
        ∙ slice-extend b.buf bytes b.readindex b.writeindex _ _ h (omega (arith, v)) refl refl
        ∙ ap (λ c. c ++ bytes) (sym (contents_straight b h));
    unmoved = refl;
    same_len = refl;
  }

  straight-wrapped :
      b.writeindex < b.readindex
      → b.writeindex + length bytes + padding ≤ b.readindex
      → Appended b bytes (straight b bytes)
  straight-wrapped h room = record {
    valid = ground (arith, length-overwrite b.buf b.writeindex bytes);
    added =
        contents_wrapped (straight b bytes) (omega arith)
        ∙ ap₂ ◌++◌
            (slice-overwrite_after b.buf b.readindex (b.len - b.readindex) b.writeindex bytes
              (omega arith))
            (slice-extend b.buf bytes 0 b.writeindex _ _ (omega arith) (omega (arith, v))
              (omega arith) (omega arith))
        ∙ sym (
            append_assoc (slice b.buf b.readindex (b.len - b.readindex))
              (slice b.buf 0 b.writeindex) bytes)
        ∙ ap (λ c. c ++ bytes) (sym (contents_wrapped b h));
    unmoved = refl;
    same_len = refl;
  }

  store_straight_lem :
      b.writeindex + length bytes ≤ b.len → store_straight b bytes ≡ some (straight b bytes)
  unfolding store_straight
  store_straight_lem room =
      rw (copy_in-some b.buf b.writeindex bytes (omega (arith, v)))
        (ap (λ w. some (record (straight b bytes) { writeindex = w })) (omega (arith, v)))

-- The array after the bytes are written round its end.
abbrev around : Buffer → List ℕ → Buffer
around b bytes = record b {
  buf =
      overwrite (overwrite b.buf b.writeindex (take (b.len - b.writeindex) bytes)) 0
        (drop (b.len - b.writeindex) bytes);
  writeindex = length bytes - (b.len - b.writeindex);
}

module _ {b : Buffer} (v : IsValid b) (bytes : List ℕ) (unwrapped : b.readindex ≤ b.writeindex)
    (over : b.len - b.writeindex < length bytes)
    (room : length bytes + padding ≤ b.len - b.writeindex + b.readindex) where
  abbrev tail_room : ℕ
  tail_room = b.len - b.writeindex

  abbrev fst_part : List ℕ
  fst_part = take tail_room bytes

  abbrev snd_part : List ℕ
  snd_part = drop tail_room bytes

  parts : (length fst_part ≡ tail_room) × (length snd_part + tail_room ≡ length bytes)
  parts = omega (arith, length-take {0} tail_room bytes, length-drop {0} tail_room bytes)

  around-upper :
      slice (around b bytes).buf b.readindex (b.len - b.readindex) ≡ contents b ++ fst_part
  around-upper =
      slice-overwrite_after (overwrite b.buf b.writeindex fst_part) b.readindex
        (b.len - b.readindex) 0 snd_part (omega (arith, parts, v))
      ∙ slice-extend b.buf fst_part b.readindex b.writeindex _ _ unwrapped (omega (arith, parts, v))
          (omega (arith, parts, v)) refl
      ∙ ap (λ c. c ++ fst_part) (sym (contents_straight b unwrapped))

  around-lower : slice (around b bytes).buf 0 (length bytes - tail_room) ≡ snd_part
  around-lower =
      ap (slice (around b bytes).buf 0) (omega (arith, parts))
      ∙ slice-overwrite_at (overwrite b.buf b.writeindex fst_part) 0 snd_part
          (omega (arith, parts, v, length-overwrite {0} b.buf b.writeindex fst_part))

  around-Appended : Appended b bytes (around b bytes)
  around-Appended = record {
    valid = record {
      full =
          length-overwrite (overwrite b.buf b.writeindex fst_part) 0 snd_part
          ∙ length-overwrite b.buf b.writeindex fst_part
          ∙ v.full;
      small = v.small;
      guarded = v.guarded;
      read_in = v.read_in;
      write_in = omega (arith, v);
      gap = inr (omega (arith, v));
    };
    added =
        contents_wrapped (around b bytes) (omega (arith, v))
        ∙ ap₂ ◌++◌ around-upper around-lower
        ∙ append_assoc (contents b) fst_part snd_part
        ∙ ap (λ c. contents b ++ c) (take-append-drop tail_room bytes);
    unmoved = refl;
    same_len = refl;
  }

  store_around_lem : store_around b bytes ≡ some (around b bytes)
  unfolding store_around
  store_around_lem =
      rw
        (
          size,
          copy_in-some b.buf b.writeindex fst_part (omega (arith, v, parts)),
          copy_in-some (overwrite b.buf b.writeindex fst_part) 0 snd_part
              (omega (arith, v, parts, length-overwrite {0} b.buf b.writeindex fst_part)),
        )
        (ap (λ w. some (record (around b bytes) { writeindex = w })) (omega (arith, v)))
    where
      size : sub64 b.len b.writeindex ≡ tail_room
      size = omega (arith, v)

-- With room for the bytes, the write succeeds and adds exactly them.
pub store_lem :
    {b : Buffer} (bytes : List ℕ)
    → IsValid b
    → length bytes ≤ writed_size b
    → (c : Buffer) × (store b bytes ≡ some c) × Appended b bytes c
unfolding store
store_lem {b} bytes v h = elim (readed_size_lem v) [
  | inl (unwrapped, e) ↦ elim (dec_le (length bytes) (b.len - b.writeindex)) [
    | yes fits ↦ (
      straight b bytes,
      rw (le→leb _ _ unwrapped, le→leb (length bytes) (sub64 b.len b.writeindex) (omega (arith, v)))
          (store_straight_lem v bytes (omega (arith, v))),
      straight-unwrapped v bytes unwrapped (omega (arith, v)),
    )
    | no over ↦ (
      around b bytes,
      ground (
        arith,
        v,
        store_around_lem v bytes unwrapped (omega (arith, v)) (omega (arith, v, writed_size_lem v)),
      ),
      around-Appended v bytes unwrapped (omega (arith, v)) (omega (arith, v, writed_size_lem v)),
    )
  ]
  | inr (wrapped, e) ↦ (
    straight b bytes,
    ground (arith, v, store_straight_lem v bytes (omega (arith, v, writed_size_lem v))),
    straight-wrapped v bytes wrapped (omega (arith, v, writed_size_lem v)),
  )
]

-- `append` of no more bytes than `writed_size` succeeds, adds exactly those bytes behind the unread
-- ones, keeps the invariant, and leaves the read index and the array's length as they are.
pub append_room :
    (fresh : ℕ → List ℕ) {b : Buffer} (bytes : List ℕ)
    → IsValid b
    → length bytes ≤ writed_size b
    → (c : Buffer) × (append fresh b bytes ≡ some c) × Appended b bytes c
unfolding append
append_room fresh {b} bytes v h =
    let (c, e, a) = store_lem bytes v h in (c, rw (le→ltb (writed_size b) (length bytes) h) e, a)

-- Where the bytes fit between the write index and the end of the array, the buffer stays in one piece.
pub append_tail :
    (fresh : ℕ → List ℕ) {b : Buffer} (bytes : List ℕ)
    → IsValid b
    → b.readindex ≤ b.writeindex
    → b.writeindex + length bytes ≤ b.len
    → (c : Buffer) × (append fresh b bytes ≡ some c)
      × Appended b bytes c
      × (c.readindex ≤ c.writeindex)
unfolding append store
append_tail fresh {b} bytes v u h = (
  straight b bytes,
  ground (arith, v, writed_size_lem v, readed_size_lem v, store_straight_lem v bytes h),
  straight-unwrapped v bytes u h,
  omega arith,
)
