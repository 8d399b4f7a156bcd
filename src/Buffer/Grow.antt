-- ===== src/Buffer/Grow.antt =====
-- `append` where there is no room: `make_memory`, `relocation_location` and the new array.
use ex_netlink.Base.{
  ℕ, ◌+◌, ◌-◌, ◌*◌, ◌^◌, ◌≤◌, ◌<◌, ◌≡◌, refl, sym, ap, ◌∙◌, ◌⊎◌, inl, inr, none, some, List, ◌++◌,
  false, arith, leb, length, slice, overwrite, length-slice, length-overwrite, lt→ltb, le→ltb,
  slice-overwrite_at, slice-slice, add64, sub64, mul64, ◌>>=◌,
}
use ex_netlink.Buffer.Defs.{
  padding, Buffer, writed_size, copy_out, reallocate, make_memory, store, append,
}
use ex_netlink.Buffer.Inv.{
  IsValid, contents, contents_straight, readed_size_lem, writed_size_lem, length-contents,
}
use ex_netlink.Buffer.Relocate.{relocation_location-contents, relocation_location_straight}
use ex_netlink.Buffer.Append.{copy_in-some, copy_out-some, store_lem}

-- What `new uint8_t[n]` returns: n bytes of any value.
abbrev pub IsAllocator : (ℕ → List ℕ) → Type 0
IsAllocator fresh = (n : ℕ) → length (fresh n) ≡ n

module _ (fresh : ℕ → List ℕ) (allocates : IsAllocator fresh) where
  abbrev pub new_len : Buffer → ℕ → ℕ
  new_len b n = b.len + (n - writed_size b) * 2

  abbrev pub reallocated : Buffer → ℕ → Buffer
  reallocated b n = record b {
    buf = overwrite (fresh (new_len b n)) 0 (slice b.buf (b.readindex - padding) b.writeindex);
    len = new_len b n;
  }

  module _ {b : Buffer} (v : IsValid b) (n : ℕ) (unwrapped : b.readindex ≤ b.writeindex)
      (short : writed_size b ≤ n) (fits : b.len + n * 2 < 2 ^ 62)
      (inside : b.readindex - padding + b.writeindex ≤ b.len) where
    abbrev moved : List ℕ
    moved = slice b.buf (b.readindex - padding) b.writeindex

    length-moved : length moved ≡ b.writeindex
    length-moved = length-slice b.buf (b.readindex - padding) b.writeindex (omega (arith, v))

    reallocate_lem : reallocate fresh b n ≡ some (reallocated b n)
    unfolding reallocate
    reallocate_lem = rw (
      start,
      size,
      copy_out-some b.buf (b.readindex - padding) b.writeindex (omega (arith, v)),
      copy_in-some (fresh (new_len b n)) 0 moved
          (omega (arith, v, length-moved, allocates (new_len b n))),
    )
      where
        start : sub64 b.readindex padding ≡ b.readindex - padding
        start = omega (arith, v)

        size : add64 b.len (mul64 (sub64 n (writed_size b)) 2) ≡ new_len b n
        size = omega (arith, v)

    reallocated-IsValid : IsValid (reallocated b n)
    reallocated-IsValid = record {
      full = length-overwrite (fresh (new_len b n)) 0 moved ∙ allocates (new_len b n);
      small = omega (arith, v);
      guarded = v.guarded;
      read_in = omega (arith, v);
      write_in = omega (arith, v);
      gap = inl unwrapped;
    }

    reallocated-room : n ≤ writed_size (reallocated b n)
    reallocated-room = omega (
      arith,
      v,
      writed_size_lem v,
      writed_size_lem reallocated-IsValid,
      readed_size_lem v,
      readed_size_lem reallocated-IsValid,
    )

    -- The bytes that the unread range of the new array holds.
    reallocated-contents :
        contents (reallocated b n)
        ≡ slice b.buf (b.readindex + b.readindex - padding) (b.writeindex - b.readindex)
    reallocated-contents =
        contents_straight (reallocated b n) unwrapped
        ∙ sym (
            slice-slice (reallocated b n).buf 0 b.writeindex b.readindex
              (b.writeindex - b.readindex) b.readindex (omega arith) (omega arith))
        ∙ ap (λ t. slice t b.readindex (b.writeindex - b.readindex))
            (ap (slice (reallocated b n).buf 0) (sym length-moved)
              ∙ slice-overwrite_at (fresh (new_len b n)) 0 moved
                  (omega (arith, v, length-moved, allocates (new_len b n))))
        ∙ slice-slice b.buf (b.readindex - padding) b.writeindex b.readindex
            (b.writeindex - b.readindex) _ (omega (arith, v)) (omega arith)

    -- The new array has room, so the store succeeds on it.
    reallocated-store :
        (bytes : List ℕ)
        → length bytes ≡ n
        → (c : Buffer) × (store (reallocated b n) bytes ≡ some c)
          × IsValid c
          × (contents c ≡ contents (reallocated b n) ++ bytes)
    reallocated-store bytes e =
        let (c, s, a) = store_lem bytes reallocated-IsValid (omega (arith, reallocated-room)) in
        (c, s, a.valid, a.added)

  -- Growing a buffer in one piece whose read index is `padding`.
  append_grow_straight :
      {b : Buffer} (bytes : List ℕ)
      → IsValid b
      → b.readindex ≡ padding
      → padding ≤ b.writeindex
      → writed_size b < length bytes
      → b.len + length bytes * 2 < 2 ^ 62
      → (c : Buffer) × ((reallocate fresh b (length bytes) >>= λ d. store d bytes) ≡ some c)
        × IsValid c
        × (contents c ≡ contents b ++ bytes)
  append_grow_straight {b} bytes v r u h fits =
      let (c, s, valid, added) =
        reallocated-store v (length bytes) (omega arith) (omega arith) fits (omega (arith, v)) bytes
          refl in
      (
        c,
        rw (reallocate_lem v (length bytes) (omega arith) (omega arith) fits (omega (arith, v))) s,
        valid,
        added
            ∙ ap (λ t. t ++ bytes)
                (reallocated-contents v (length bytes) (omega arith) (omega arith) fits
                    (omega (arith, v))
                  ∙ ap (λ i. slice b.buf i (b.writeindex - b.readindex)) (omega arith)
                  ∙ sym (contents_straight b (omega arith))),
      )

  -- `append` of more bytes than there is room for, on a buffer from which nothing has been skipped
  -- since its read index was last reset, or whose bytes go round the end with the longer piece at
  -- the start: it succeeds, adds exactly its bytes behind the unread ones, and keeps the invariant.
  pub append_grow :
      {b : Buffer} (bytes : List ℕ)
      → IsValid b
      → ((b.readindex ≡ padding) × (padding ≤ b.writeindex))
        ⊎ ((b.writeindex < b.readindex) × (b.len - b.readindex ≤ b.writeindex))
      → writed_size b < length bytes
      → b.len + length bytes * 2 < 2 ^ 62
      → (c : Buffer) × (append fresh b bytes ≡ some c)
        × IsValid c
        × (contents c ≡ contents b ++ bytes)
  unfolding append make_memory
  append_grow {b} bytes v (inl (r, u)) h fits =
      let (c, s, valid, added) = append_grow_straight bytes v r u h fits in
      (
        c,
        rw
            (
              lt→ltb (writed_size b) (length bytes) h,
              le→ltb (length bytes) (writed_size b) (omega arith),
              relocation_location_straight b (omega arith),
            )
            s,
        valid,
        added,
      )
  append_grow {b} bytes v (inr (w, l)) h fits =
      let (d, reloc, dv, same, dr, du, dl) = relocation_location-contents v w l in
      let (c, s, valid, added) =
        append_grow_straight bytes dv dr du
          (omega (
            arith,
            writed_size_lem v,
            writed_size_lem dv,
            ap (length {A = ℕ}) same,
            length-contents v,
            length-contents dv,
            dl,
          ))
          (omega (arith, dl)) in
      (
        c,
        rw
            (
              lt→ltb (writed_size b) (length bytes) h,
              le→ltb (length bytes) (writed_size b) (omega arith),
              reloc,
            )
            s,
        valid,
        added ∙ ap (λ t. t ++ bytes) same,
      )

  -- Growing a buffer in one piece whose read index `r` has moved past `padding`: `make_memory`
  -- copies the bytes to the start of the new array and leaves both indices as they are, so the
  -- unread range of the new array holds the old bytes from `r - padding` places further on, and the
  -- first `r - padding` unread bytes are lost.
  make_memory-displaces :
      {b : Buffer} (n : ℕ)
      → IsValid b
      → b.readindex ≤ b.writeindex
      → writed_size b ≤ n
      → b.len + n * 2 < 2 ^ 62
      → b.readindex - padding + b.writeindex ≤ b.len
      → (c : Buffer) × (make_memory fresh b n ≡ some c)
        × IsValid c
        × (contents c
            ≡ slice b.buf (b.readindex + (b.readindex - padding)) (b.writeindex - b.readindex))
  unfolding make_memory
  make_memory-displaces {b} n v u h fits inside = (
    reallocated b n,
    rw (le→ltb n (writed_size b) h, relocation_location_straight b u)
        (reallocate_lem v n u h fits inside),
    reallocated-IsValid v n u h fits inside,
    reallocated-contents v n u h fits inside
        ∙ ap (λ i. slice b.buf i (b.writeindex - b.readindex)) (omega (arith, v)),
  )

  -- If those bytes reach past the end of the old array, `make_memory` reads outside it.
  pub make_memory-over_read :
      {b : Buffer} (n : ℕ)
      → IsValid b
      → b.readindex ≤ b.writeindex
      → writed_size b ≤ n
      → b.len < b.readindex - padding + b.writeindex
      → make_memory fresh b n ≡ none
  unfolding make_memory reallocate copy_out
  make_memory-over_read {b} n v u h over =
      rw (le→ltb n (writed_size b) h, relocation_location_straight b u, outside)
    where
      outside : leb (sub64 b.readindex padding + b.writeindex) (length b.buf) ≡ false
      outside = ground (arith, v)
