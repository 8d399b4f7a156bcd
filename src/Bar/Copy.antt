-- ===== src/Bar/Copy.antt =====
-- What a copy of a `Bar` holds.
use ex_netlink.Base.{
  ℕ, ◌≡◌, ◌≢◌, refl, ap, ◌∙◌, some, List, [], ◌∷◌, le→leb, length, slice, overwrite, length-slice,
  arith,
}
use ex_netlink.Bar.Defs.{Store, Bar, read}
use ex_netlink.Bar.Make.{bar_of, copy_bar}
use ex_netlink.Bar.Blocks.{IsValid, live-last, live-append}

-- The bytes of a string.
abbrev pub bytes_of : Bar → List ℕ → List ℕ
bytes_of b block = slice block 0 b.len

overwrite_whole : (xs ys : List ℕ) → length xs ≡ length ys → overwrite xs 0 ys ≡ ys
overwrite_whole [] [] h = refl
overwrite_whole [] (y ∷ ys) h = absurd (omega arith)
overwrite_whole (x ∷ xs) [] h = absurd (omega arith)
overwrite_whole (x ∷ xs) (y ∷ ys) h = ap (λ r. y ∷ r) (overwrite_whole xs ys (omega arith))

module _ (fresh : ℕ → List ℕ) (sized : (n : ℕ) → length (fresh n) ≡ n) where
  -- The copy constructor, on a string whose block has the size of its capacity, less than 2^62, where
  -- malloc(3) returns blocks of the size it is asked for: the new object has a block of its own, with
  -- the bytes of the other string and no room behind them, and the other string keeps its block and
  -- its bytes.
  pub copy_bar-bytes_of :
      (h : Store) (other : Bar) (block : List ℕ)
      → IsValid h other block
      → (h' : Store) × (c : Bar) × (copy_bar fresh h other ≡ some (h', c))
        × IsValid h' c (bytes_of other block)
        × (c.len ≡ other.len)
        × (c.capacity ≡ other.len)
        × IsValid h' other block
        × (other.data_ ≢ c.data_)
  unfolding copy_bar bar_of read
  copy_bar-bytes_of h other block w = (
    (bar_of fresh h bytes).0,
    (bar_of fresh h bytes).1,
    rw (w.held, le→leb other.len (length block) (omega (arith, w))) refl,
    record {
      held =
          live-last h _
          ∙ ap some (overwrite_whole (fresh (length bytes)) bytes (sized (length bytes)));
      full = refl;
      within = omega arith;
      small = omega (arith, w, size);
    },
    size,
    size,
    record {
      held = (live-append h _ other.data_ block w.held).0;
      full = w.full;
      within = w.within;
      small = w.small;
    },
    (live-append h [] other.data_ block w.held).1,
  )
    where
      bytes : List ℕ
      bytes = bytes_of other block

      size : length bytes ≡ other.len
      size = length-slice block 0 other.len (omega (arith, w))
