-- ===== src/Buffer/Tests.antt =====
-- Runs of `circulation_buffer` on an array of 20 bytes.
use ex_netlink.Buffer.Handle.{Heap, Handle, view, array_at, destroy, move_construct}
use ex_netlink.Buffer.Moves.{move_construct-view}
use ex_netlink.Base.{
  none, ◌==◌, if◌then◌else◌, ℕ, ◌+◌, ◌-◌, ◌≤◌, ◌<◌, ◌≡◌, refl, ◌⊎◌, inl, inr, some, List, [], ◌∷◌,
  ◌++◌, arith, take, drop, All, ◌>>=◌,
}
use ex_netlink.Bytes.{be_value}
use ex_netlink.Buffer.{
  padding, Buffer, zeros, circulation_buffer, readed_size, writed_size, append, skip, peek,
  relocation_location, store, store_straight, copy_in,
}
use ex_netlink.Buffer.Queue.{
  empty_queue, Call, appends, skips, peeks, asks_readed_size, QueueRun, ended, after, appended,
  passed, peeked, asked, emptied, run_calls,
}
use ex_netlink.Buffer.Queue.Refines.{Represents, run_calls-Represents, new-Represents}
use ex_netlink.Buffer.Inv.{IsValid, contents, length-zeros}
use ex_netlink.Buffer.Append.{append_room, Appended}
use ex_netlink.Buffer.Skip.{skip-contents}
use ex_netlink.Buffer.Peek.{peek-be_value}
use ex_netlink.Buffer.Relocate.{relocation_location-contents, relocation_location-readed_size}
use ex_netlink.Buffer.Grow.{append_grow}

abbrev bytes20 : List ℕ
bytes20 =
    10 ∷ 11 ∷ 12 ∷ 13 ∷ 14 ∷ 15 ∷ 16 ∷ 17 ∷ 18 ∷ 19 ∷ 20 ∷ 21 ∷ 22 ∷ 23 ∷ 24 ∷ 25 ∷ 26 ∷ 27 ∷ 28
    ∷ 29 ∷ []

abbrev at_indices : ℕ → ℕ → Buffer
at_indices r w = record { buf = bytes20; len = 20; readindex = r; writeindex = w }

-- Unread bytes that go round the end of the array.
abbrev wrapped : Buffer
wrapped = at_indices 14 6

wrapped-IsValid : IsValid wrapped
wrapped-IsValid = record {
  full = refl;
  small = omega arith;
  guarded = omega arith;
  read_in = omega arith;
  write_in = omega arith;
  gap = inr (omega arith);
}

-- The same with the longer piece at the end.
abbrev long_end : Buffer
long_end = at_indices 10 3

long_end-IsValid : IsValid long_end
long_end-IsValid = record {
  full = refl;
  small = omega arith;
  guarded = omega arith;
  read_in = omega arith;
  write_in = omega arith;
  gap = inr (omega arith);
}

-- Unread bytes in one piece, near the start and near the end.
abbrev early : Buffer
early = at_indices 6 10

early-IsValid : IsValid early
early-IsValid = record {
  full = refl;
  small = omega arith;
  guarded = omega arith;
  read_in = omega arith;
  write_in = omega arith;
  gap = inl (omega arith);
}

abbrev late : Buffer
late = at_indices 12 18

late-IsValid : IsValid late
late-IsValid = record {
  full = refl;
  small = omega arith;
  guarded = omega arith;
  read_in = omega arith;
  write_in = omega arith;
  gap = inl (omega arith);
}

sizes : (readed_size wrapped ≡ 12) × (writed_size wrapped ≡ 4)
unfolding readed_size writed_size
sizes = (refl, refl)

sizes_straight : (writed_size early ≡ 12) × (writed_size late ≡ 10)
unfolding writed_size
sizes_straight = (refl, refl)

are_bytes : All (λ x. x < 256) (contents wrapped)
are_bytes = (
  omega arith,
  (
    omega arith,
    (
      omega arith,
      (
        omega arith,
        (
          omega arith,
          (
            omega arith,
            (
              omega arith,
              (omega arith, (omega arith, (omega arith, (omega arith, (omega arith, tt))))),
            ),
          ),
        ),
      ),
    ),
  ),
)

append_room_example :
    (c : Buffer) × (append zeros wrapped (7 ∷ 8 ∷ []) ≡ some c) × Appended wrapped (7 ∷ 8 ∷ []) c
append_room_example = append_room zeros (7 ∷ 8 ∷ []) wrapped-IsValid (omega (arith, sizes))

skip-contents_example :
    (c : Buffer) × (skip wrapped 11 ≡ some c)
    × (contents c ≡ drop 11 (contents wrapped))
    × (IsValid c ⊎ (c.readindex < padding))
skip-contents_example = skip-contents 11 wrapped-IsValid (omega (arith, sizes))

peek-be_value_example : peek 8 wrapped ≡ some (be_value (take 8 (contents wrapped)))
peek-be_value_example =
    peek-be_value 8 wrapped-IsValid are_bytes (omega (arith, sizes)) (λ w e. omega arith)

relocation_location-contents_example :
    (c : Buffer) × (relocation_location wrapped ≡ some c)
    × IsValid c
    × (contents c ≡ contents wrapped)
    × (c.readindex ≡ padding)
    × (padding ≤ c.writeindex)
    × (c.len ≡ 20)
relocation_location-contents_example =
    relocation_location-contents wrapped-IsValid (omega arith) (omega arith)

relocation_location-readed_size_example :
    (c : Buffer) × (relocation_location long_end ≡ some c)
    × (readed_size c ≡ readed_size long_end + (10 - 8))
relocation_location-readed_size_example =
    relocation_location-readed_size long_end-IsValid (omega arith) (omega arith) (omega arith)

append_grow_example :
    (c : Buffer) × (append zeros wrapped (1 ∷ 2 ∷ 3 ∷ 4 ∷ 5 ∷ []) ≡ some c)
    × IsValid c
    × (contents c ≡ contents wrapped ++ (1 ∷ 2 ∷ 3 ∷ 4 ∷ 5 ∷ []))
append_grow_example =
    append_grow zeros length-zeros (1 ∷ 2 ∷ 3 ∷ 4 ∷ 5 ∷ []) wrapped-IsValid
      (inr (omega arith, omega arith)) (omega (arith, sizes)) (omega arith)

-- A new buffer of 20 bytes, after `append` of ten bytes and `skip` of eight.
appended_skipped :
    (append zeros (circulation_buffer 20) (1 ∷ 2 ∷ 3 ∷ 4 ∷ 5 ∷ 6 ∷ 7 ∷ 8 ∷ 9 ∷ 10 ∷ []) >>= λ b.
    skip b 8)
    ≡ some (record {
      buf = 0 ∷ 0 ∷ 0 ∷ 0 ∷ 1 ∷ 2 ∷ 3 ∷ 4 ∷ 5 ∷ 6 ∷ 7 ∷ 8 ∷ 9 ∷ 10 ∷ 0 ∷ 0 ∷ 0 ∷ 0 ∷ 0 ∷ 0 ∷ [];
      len = 20;
      readindex = 12;
      writeindex = 14;
    })
unfolding append store store_straight copy_in skip readed_size writed_size circulation_buffer
appended_skipped = refl

-- On an array of 16 bytes: ten bytes in, eight skipped, eight more in round the end, a number read
-- across it, and all skipped.
abbrev ten : List ℕ
ten = 1 ∷ 2 ∷ 3 ∷ 4 ∷ 5 ∷ 6 ∷ 7 ∷ 8 ∷ 9 ∷ 10 ∷ []

abbrev eight : List ℕ
eight = 11 ∷ 12 ∷ 13 ∷ 14 ∷ 15 ∷ 16 ∷ 17 ∷ 18 ∷ []

abbrev session : List Call
session =
    appends ten
    ∷ skips 8
    ∷ appends eight
    ∷ peeks 2
    ∷ peeks 8
    ∷ asks_readed_size
    ∷ skips 10
    ∷ asks_readed_size
    ∷ []

session_run :
    QueueRun
      (empty_queue 16)
      session
      (empty_queue 16)
      (be_value (9 ∷ 10 ∷ []) ∷ be_value (9 ∷ 10 ∷ 11 ∷ 12 ∷ 13 ∷ 14 ∷ 15 ∷ 16 ∷ []) ∷ 10 ∷ 0 ∷ [])
session_run =
    after
      (appended ten
        (
          omega arith,
          (
            omega arith,
            (
              omega arith,
              (
                omega arith,
                (
                  omega arith,
                  (omega arith, (omega arith, (omega arith, (omega arith, (omega arith, tt))))),
                ),
              ),
            ),
          ),
        )
        (omega arith))
      (after (passed 8 (omega arith) (omega arith)) (
        after
          (appended eight
            (
              omega arith,
              (
                omega arith,
                (
                  omega arith,
                  (omega arith, (omega arith, (omega arith, (omega arith, (omega arith, tt))))),
                ),
              ),
            )
            (omega arith))
          (after (peeked 2 (omega arith) (inl (omega arith))) (
            after (peeked 8 (omega arith) (inr (inl (omega arith))))
              (after asked (after emptied (after asked ended)))))))

run_calls-Represents_example :
    (d : Buffer) × (run_calls zeros (circulation_buffer 16) session
      ≡ some (
        d,
        be_value (9 ∷ 10 ∷ []) ∷ be_value (9 ∷ 10 ∷ 11 ∷ 12 ∷ 13 ∷ 14 ∷ 15 ∷ 16 ∷ []) ∷ 10 ∷ 0 ∷ [],
      ))
    × Represents d (empty_queue 16)
run_calls-Represents_example =
    run_calls-Represents zeros (circulation_buffer 16) session_run
      (new-Represents 16 (omega arith) (omega arith))

-- Two arrays, of which the second one is the object's.
abbrev arrays : Heap
arrays = some (1 ∷ 2 ∷ []) ∷ some (zeros 8) ∷ []

abbrev owner : Handle
owner = record { buf = some 1; len = 8; readindex = 4; writeindex = 4 }

move_construct-view_example :
    (view arrays (move_construct owner).0 ≡ view arrays owner)
    × (view arrays (move_construct owner).1 ≡ none)
    × (h : Heap) × ((destroy arrays (move_construct owner).1 >>= λ k.
          destroy k (move_construct owner).0)
        ≡ some h)
    × ((destroy arrays (move_construct owner).0 >>= λ k. destroy k (move_construct owner).1)
        ≡ some h)
    × ((c : ℕ) → array_at h (some c) ≡ (if 1 == c then none else array_at arrays (some c)))
unfolding array_at
move_construct-view_example = move_construct-view arrays owner 1 (zeros 8) refl refl
