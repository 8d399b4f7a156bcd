-- ===== src/Buffer/Inv.antt =====
-- The representation invariant of `circulation_buffer`, and the bytes that it holds.
use ex_netlink.Base.{
  ℕ, zero, suc, ◌+◌, ◌-◌, ◌^◌, ◌≤◌, ◌<◌, ◌≡◌, refl, ap, ◌⊎◌, inl, inr, List, ◌++◌, arith, ltb,
  if◌then◌else◌, length, slice, length-append, length-slice,
}
use ex_netlink.Buffer.Defs.{padding, Buffer, zeros, circulation_buffer, readed_size, writed_size}

-- The indices stay inside the array, and at least `padding` bytes lie before the read index, free.
pub record IsValid (b : Buffer) : Type 0 where
  pub full : length b.buf ≡ b.len
  pub small : b.len < 2 ^ 62
  pub guarded : padding ≤ b.readindex
  pub read_in : b.readindex ≤ b.len
  pub write_in : b.writeindex ≤ b.len
  pub gap : (b.readindex ≤ b.writeindex) ⊎ (b.writeindex + padding ≤ b.readindex)

-- The unread bytes, oldest first.
abbrev pub contents : Buffer → List ℕ
contents b =
    if ltb b.writeindex b.readindex
    then slice b.buf b.readindex (b.len - b.readindex) ++ slice b.buf 0 b.writeindex
    else slice b.buf b.readindex (b.writeindex - b.readindex)

pub length-zeros : (n : ℕ) → length (zeros n) ≡ n
length-zeros zero = refl
length-zeros (suc n) = ap suc (length-zeros n)

pub contents_straight :
    (b : Buffer)
    → b.readindex ≤ b.writeindex
    → contents b ≡ slice b.buf b.readindex (b.writeindex - b.readindex)
contents_straight b h = ground arith

pub contents_wrapped :
    (b : Buffer)
    → b.writeindex < b.readindex
    → contents b ≡ slice b.buf b.readindex (b.len - b.readindex) ++ slice b.buf 0 b.writeindex
contents_wrapped b h = ground arith

pub readed_size_lem :
    {b : Buffer}
    → IsValid b
    → ((b.readindex ≤ b.writeindex) × (readed_size b ≡ b.writeindex - b.readindex))
      ⊎ ((b.writeindex < b.readindex) × (readed_size b ≡ b.len - b.readindex + b.writeindex))
unfolding readed_size
readed_size_lem v = ground arith

-- Of an array of `len` bytes, all but `padding` are unread or free.
pub writed_size_lem : {b : Buffer} → IsValid b → readed_size b + writed_size b + padding ≡ b.len
unfolding readed_size writed_size
writed_size_lem v = ground arith

pub circulation_buffer-IsValid : (n : ℕ) → padding ≤ n → n < 2 ^ 62 → IsValid (circulation_buffer n)
unfolding circulation_buffer
circulation_buffer-IsValid n h s = record {
  full = length-zeros n;
  small = s;
  guarded = omega arith;
  read_in = h;
  write_in = h;
  gap = inl (omega arith);
}

pub length-contents : {b : Buffer} → IsValid b → length (contents b) ≡ readed_size b
length-contents {b} v = elim (readed_size_lem v) [
  | inl (h, e) ↦ rw (
    contents_straight b h,
    e,
    length-slice b.buf b.readindex (b.writeindex - b.readindex) (omega arith),
  )
  | inr (h, e) ↦
      rw (contents_wrapped b h, e)
        (omega (
          arith,
          length-append {0} (slice b.buf b.readindex (b.len - b.readindex))
              (slice b.buf 0 b.writeindex),
          length-slice {0} b.buf b.readindex (b.len - b.readindex),
          length-slice {0} b.buf 0 b.writeindex,
          v,
        ))
]
