-- ===== src/Buffer/Peek.antt =====
-- `peek<T>()`: the first unread bytes as a number in network order.
use ex_netlink.Base.{
  ℕ, ◌+◌, ◌-◌, ◌*◌, ◌^◌, ◌≤◌, ◌<◌, ◌≡◌, sym, subst, ap, ◌∙◌, inl, inr, some, List, ◌++◌, Bool,
  arith, ltb, if◌then◌else◌, length, take, slice, length-slice, All, All-take, length-take,
  length-append, le→leb, lt→ltb, le→ltb, take-slice, take-append_le, take-append_add, dec_lt, sub64,
}
use native.Mathlib.Nat.{mod-eq_of_lt}
use ex_netlink.Bytes.{le_value, be_value, le_value-append, le_value-lt, network2host-le_value}
use ex_netlink.Buffer.Defs.{
  Buffer, readed_size, join_bytes, peek_raw, peek_both, peek_wrapped, peek,
}
use ex_netlink.Buffer.Inv.{
  IsValid, contents, contents_straight, contents_wrapped, readed_size_lem, length-contents,
}
use ex_netlink.Buffer.Append.{copy_out-some}

module _ {b : Buffer} (v : IsValid b) (w : ℕ) where
  take-contents_straight :
      b.readindex ≤ b.writeindex
      → w ≤ b.writeindex - b.readindex
      → take w (contents b) ≡ slice b.buf b.readindex w
  take-contents_straight u h =
      ap (take w) (contents_straight b u)
      ∙ take-slice b.buf b.readindex (b.writeindex - b.readindex) w h

  take-contents_upper :
      b.writeindex < b.readindex
      → w ≤ b.len - b.readindex
      → take w (contents b) ≡ slice b.buf b.readindex w
  take-contents_upper u h =
      ap (take w) (contents_wrapped b u)
      ∙ take-append_le w (slice b.buf b.readindex (b.len - b.readindex))
          (slice b.buf 0 b.writeindex) (omega (arith, v, upper))
      ∙ take-slice b.buf b.readindex (b.len - b.readindex) w h
    where
      upper : length (slice b.buf b.readindex (b.len - b.readindex)) ≡ b.len - b.readindex
      upper = length-slice b.buf b.readindex (b.len - b.readindex) (omega (arith, v))

  take-contents_both :
      b.writeindex < b.readindex
      → b.len - b.readindex ≤ w
      → w ≤ b.len - b.readindex + b.writeindex
      → take w (contents b)
        ≡ slice b.buf b.readindex (b.len - b.readindex) ++ slice b.buf 0 (w - (b.len - b.readindex))
  take-contents_both u ge le =
      ap (take w) (contents_wrapped b u)
      ∙ take-append_add w (slice b.buf b.readindex (b.len - b.readindex))
          (slice b.buf 0 b.writeindex) (omega (arith, upper))
      ∙ ap (λ t. slice b.buf b.readindex (b.len - b.readindex) ++ t)
          (ap (λ k. take k (slice b.buf 0 b.writeindex)) (omega (arith, upper))
            ∙ take-slice b.buf 0 b.writeindex (w - (b.len - b.readindex)) (omega arith))
    where
      upper : length (slice b.buf b.readindex (b.len - b.readindex)) ≡ b.len - b.readindex
      upper = length-slice b.buf b.readindex (b.len - b.readindex) (omega (arith, v))

  peek_raw_lem :
      b.readindex + w ≤ b.len → peek_raw w b ≡ some (le_value (slice b.buf b.readindex w))
  unfolding peek_raw
  peek_raw_lem h = rw (copy_out-some b.buf b.readindex w (omega (arith, v)))

  join_bytes_lem :
      (xs ys : List ℕ)
      → length xs + length ys ≡ w
      → (w ≡ length xs → w < 4)
      → All (λ x. x < 256) (xs ++ ys)
      → join_bytes w (length xs) (le_value xs) (le_value ys) ≡ some (le_value (xs ++ ys))
  unfolding join_bytes
  join_bytes_lem xs ys e odd h = ground (arith, total, mod-eq_of_lt below)
    where
      total : le_value xs + le_value ys * 256 ^ length xs ≡ le_value (xs ++ ys)
      total = omega (arith, le_value-append xs ys)

      below : le_value xs + le_value ys * 256 ^ length xs < 256 ^ w
      below = rw (total, ← e, ← length-append xs ys) (le_value-lt (xs ++ ys) h)

  -- The value in memory order, before its conversion, where the unread bytes go round the end.
  peek_wrapped_lem :
      b.writeindex < b.readindex
      → w ≤ b.len - b.readindex + b.writeindex
      → (w ≡ b.len - b.readindex → w < 4)
      → All (λ x. x < 256) (contents b)
      → peek_wrapped w b ≡ some (le_value (take w (contents b)))
  unfolding peek_wrapped peek_both
  peek_wrapped_lem u h odd bytes = elim (dec_lt w (b.len - b.readindex)) [
    | yes lt ↦
        rw (size, lt→ltb _ _ lt)
          (peek_raw_lem (omega (arith, v))
            ∙ ap (λ t. some (le_value t)) (sym (take-contents_upper u (omega arith))))
    | no ge ↦
        rw
          (
            size,
            le→ltb w (b.len - b.readindex) (omega arith),
            copy_out-some b.buf b.readindex (b.len - b.readindex) (omega (arith, v)),
            rest (omega arith),
            copy_out-some b.buf 0 (w - (b.len - b.readindex)) (omega (arith, v)),
          )
          (ap
              (λ n.
                join_bytes w n (le_value (slice b.buf b.readindex (b.len - b.readindex)))
                  (le_value (slice b.buf 0 (w - (b.len - b.readindex)))))
              (sym upper)
            ∙ join_bytes_lem (slice b.buf b.readindex (b.len - b.readindex))
                (slice b.buf 0 (w - (b.len - b.readindex)))
                (omega (arith, v, upper, length-slice {0} b.buf 0 (w - (b.len - b.readindex))))
                (λ e. odd (e ∙ upper))
                (subst (All (λ x. x < 256)) (take-contents_both u (omega arith) h)
                  (All-take (λ x. x < 256) w (contents b) bytes))
            ∙ ap (λ t. some (le_value t)) (sym (take-contents_both u (omega arith) h)))
  ]
    where
      size : sub64 b.len b.readindex ≡ b.len - b.readindex
      size = omega (arith, v)

      rest : b.len - b.readindex ≤ w → sub64 w (b.len - b.readindex) ≡ w - (b.len - b.readindex)
      rest ge = omega (arith, v)

      upper : length (slice b.buf b.readindex (b.len - b.readindex)) ≡ b.len - b.readindex
      upper = length-slice b.buf b.readindex (b.len - b.readindex) (omega (arith, v))

-- `peek<T>` of a T of `w` bytes reads the first `w` unread bytes as a big-endian number, wherever
-- they lie in the array; the one exception is excluded by a hypothesis: a T of four bytes or more
-- whose bytes end exactly at the end of the array, with more unread bytes at its start.
pub peek-be_value :
    {b : Buffer} (w : ℕ)
    → IsValid b
    → All (λ x. x < 256) (contents b)
    → w ≤ readed_size b
    → (b.writeindex < b.readindex → w ≡ b.len - b.readindex → w < 4)
    → peek w b ≡ some (be_value (take w (contents b)))
unfolding peek
peek-be_value {b} w v bytes h odd =
    rw (le→leb w (readed_size b) h, raw)
      (ap some (
        network2host-le_value w (take w (contents b))
          (length-take w (contents b) ∙ omega (arith, length-contents v))
          (All-take (λ x. x < 256) w (contents b) bytes)))
  where
    choose :
        {c : Bool}
        → ltb b.writeindex b.readindex ≡ c
        → (if ltb b.writeindex b.readindex then peek_wrapped w b else peek_raw w b)
          ≡ (if c then peek_wrapped w b else peek_raw w b)
    choose e = ap (λ c. if c then peek_wrapped w b else peek_raw w b) e

    raw :
        (if ltb b.writeindex b.readindex then peek_wrapped w b else peek_raw w b)
        ≡ some (le_value (take w (contents b)))
    raw = elim (readed_size_lem v) [
      | inl (u, e) ↦
          choose (le→ltb b.writeindex b.readindex u)
          ∙ (peek_raw_lem v w (omega (arith, v))
              ∙ ap (λ t. some (le_value t)) (sym (take-contents_straight v w u (omega arith))))
      | inr (u, e) ↦
          choose (lt→ltb b.writeindex b.readindex u)
          ∙ (peek_wrapped_lem v w u (omega arith) (odd u) bytes)
    ]
