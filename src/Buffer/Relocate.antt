-- ===== src/Buffer/Relocate.antt =====
-- `relocation_location`: where the unread bytes go round the end, it brings them into one piece.
use ex_netlink.Base.{
  ℕ, ◌+◌, ◌-◌, ◌≤◌, ◌<◌, ◌≡◌, refl, sym, ap, ap₂, ◌∙◌, inl, some, List, ◌++◌, arith, length, slice,
  overwrite, length-slice, length-overwrite, le→ltb, slice-overwrite_after, slice-overwrite_at,
  slice_add, slice-slice, add64, sub64,
}
use ex_netlink.Buffer.Defs.{
  padding, Buffer, readed_size, relocate_front, relocate_back, relocation_location,
}
use ex_netlink.Buffer.Inv.{IsValid, contents, contents_straight, contents_wrapped}
use ex_netlink.Buffer.Append.{copy_in-some, copy_out-some}

-- The upper piece, with the `padding` bytes before it, and the array after both pieces are moved.
abbrev upper_len : Buffer → ℕ
upper_len b = b.len - b.readindex + padding

abbrev upper : Buffer → List ℕ
upper b = slice b.buf (b.readindex - padding) (upper_len b)

abbrev lower : Buffer → List ℕ
lower b = slice b.buf 0 b.writeindex

abbrev pub relocated : Buffer → Buffer
relocated b = record b {
  buf = overwrite (overwrite b.buf (upper_len b) (lower b)) 0 (upper b);
  readindex = padding;
  writeindex = b.len - b.readindex + b.writeindex + padding;
}

module _ {b : Buffer} (v : IsValid b) (wrapped : b.writeindex < b.readindex) where
  pieces : (length (upper b) ≡ upper_len b) × (length (lower b) ≡ b.writeindex)
  pieces = (
    length-slice b.buf (b.readindex - padding) (upper_len b) (omega (arith, v)),
    length-slice b.buf 0 b.writeindex (omega (arith, v)),
  )

  lengths :
      (length (overwrite b.buf (upper_len b) (lower b)) ≡ b.len)
      × (length (relocated b).buf ≡ b.len)
  lengths = (
    length-overwrite b.buf (upper_len b) (lower b) ∙ v.full,
    length-overwrite (overwrite b.buf (upper_len b) (lower b)) 0 (upper b)
        ∙ length-overwrite b.buf (upper_len b) (lower b)
        ∙ v.full,
  )

  sizes :
      (sub64 b.readindex padding ≡ b.readindex - padding)
      × (add64 (sub64 b.len b.readindex) padding ≡ upper_len b)
  sizes = omega (arith, v)

  relocate_back_lem : relocate_back b ≡ some (relocated b)
  unfolding relocate_back
  relocate_back_lem =
      rw
        (
          sizes.0,
          sizes.1,
          copy_out-some b.buf (b.readindex - padding) (upper_len b) (omega (arith, v)),
          copy_out-some b.buf 0 b.writeindex (omega (arith, v)),
          copy_in-some b.buf (upper_len b) (lower b) (omega (arith, v, pieces)),
          copy_in-some (overwrite b.buf (upper_len b) (lower b)) 0 (upper b)
              (omega (arith, v, pieces, lengths)),
        )
        (ap (λ w. some (record (relocated b) { writeindex = w })) (omega (arith, v)))

  relocated-IsValid : IsValid (relocated b)
  relocated-IsValid = record {
    full = lengths.1;
    small = v.small;
    guarded = omega arith;
    read_in = omega (arith, v);
    write_in = omega (arith, v);
    gap = inl (omega (arith, v));
  }

  relocated-upper :
      slice (relocated b).buf padding (b.len - b.readindex)
      ≡ slice b.buf b.readindex (b.len - b.readindex)
  relocated-upper =
      sym (
        slice-slice (relocated b).buf 0 (upper_len b) padding (b.len - b.readindex) padding
          (omega arith) (omega arith))
      ∙ ap (λ t. slice t padding (b.len - b.readindex))
          (ap (slice (relocated b).buf 0) (sym pieces.0)
            ∙ slice-overwrite_at (overwrite b.buf (upper_len b) (lower b)) 0 (upper b)
                (omega (arith, v, pieces, lengths)))
      ∙ slice-slice b.buf (b.readindex - padding) (upper_len b) padding (b.len - b.readindex)
          b.readindex (omega (arith, v)) (omega arith)

  relocated-lower : slice (relocated b).buf (upper_len b) b.writeindex ≡ lower b
  relocated-lower =
      slice-overwrite_after (overwrite b.buf (upper_len b) (lower b)) (upper_len b) b.writeindex 0
        (upper b) (omega (arith, pieces))
      ∙ ap (slice (overwrite b.buf (upper_len b) (lower b)) (upper_len b)) (sym pieces.1)
      ∙ slice-overwrite_at b.buf (upper_len b) (lower b) (omega (arith, v, pieces))

  relocated-contents : contents (relocated b) ≡ contents b
  relocated-contents =
      contents_straight (relocated b) (omega (arith, v))
      ∙ slice_add (relocated b).buf padding (b.len - b.readindex) b.writeindex (upper_len b) _
          (omega arith) (omega arith)
      ∙ ap₂ ◌++◌ relocated-upper relocated-lower
      ∙ sym (contents_wrapped b wrapped)

pub relocation_location_straight :
    (b : Buffer) → b.readindex ≤ b.writeindex → relocation_location b ≡ some b
unfolding relocation_location
relocation_location_straight b u = rw (le→ltb b.writeindex b.readindex u)

-- Where the piece at the start of the array is at least as long as the one at its end, the
-- relocation keeps the unread bytes, brings them into one piece at `padding`, and keeps the invariant.
pub relocation_location-contents :
    {b : Buffer}
    → IsValid b
    → b.writeindex < b.readindex
    → b.len - b.readindex ≤ b.writeindex
    → (c : Buffer) × (relocation_location b ≡ some c)
      × IsValid c
      × (contents c ≡ contents b)
      × (c.readindex ≡ padding)
      × (padding ≤ c.writeindex)
      × (c.len ≡ b.len)
unfolding relocation_location
relocation_location-contents {b} v w h = (
  relocated b,
  ground (arith, v, relocate_back_lem v w),
  relocated-IsValid v w,
  relocated-contents v w,
  refl,
  omega arith,
  refl,
)

module _ {b : Buffer} (v : IsValid b) (wrapped : b.writeindex < b.readindex) where
  relocate_front_lem :
      (c : Buffer) × (relocate_front b ≡ some c)
      × (c.readindex ≡ padding)
      × (c.writeindex ≡ b.len - padding + b.writeindex)
      × (c.len ≡ b.len)
  unfolding relocate_front
  relocate_front_lem = (
    record b {
      buf = overwrite (overwrite b.buf 0 (upper b)) (upper_len b) (lower b);
      readindex = padding;
      writeindex = b.len - padding + b.writeindex;
    },
    rw
        (
          (sizes v wrapped).0,
          (sizes v wrapped).1,
          copy_out-some b.buf 0 b.writeindex (omega (arith, v)),
          copy_out-some b.buf (b.readindex - padding) (upper_len b) (omega (arith, v)),
          copy_in-some b.buf 0 (upper b) (omega (arith, v, pieces v wrapped)),
          copy_in-some (overwrite b.buf 0 (upper b)) (upper_len b) (lower b)
              (omega (arith, v, pieces v wrapped, length-overwrite {0} b.buf 0 (upper b))),
        )
        (ap
          (λ w. some (record b {
            buf = overwrite (overwrite b.buf 0 (upper b)) (upper_len b) (lower b);
            readindex = padding;
            writeindex = w;
          }))
          (omega (arith, v))),
    refl,
    refl,
    refl,
  )

-- Where the unread bytes of a valid buffer wrap round, the piece at the end of the array is the longer
-- one and the read index is 8 at least, the relocation computes the write index from the read index
-- that it has just reset: the buffer then counts `readindex - 8` more unread
-- bytes than there were, so the count is right only if the read index was 8.
pub relocation_location-readed_size :
    {b : Buffer}
    → IsValid b
    → b.writeindex < b.len - b.readindex
    → b.writeindex < b.readindex
    → 8 ≤ b.readindex
    → (c : Buffer) × (relocation_location b ≡ some c)
      × (readed_size c ≡ readed_size b + (b.readindex - 8))
unfolding relocation_location readed_size
relocation_location-readed_size {b} v longer w h =
    let (c, e, r, i, l) = relocate_front_lem v w in
    (c, ground (arith, v, e), ground (arith, v, r, i, l))
