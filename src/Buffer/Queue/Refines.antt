-- ===== src/Buffer/Queue/Refines.antt =====
-- `circulation_buffer` does what the queue of bytes allows, over any sequence of calls.
use ex_netlink.Base.{
  ℕ, ◌+◌, ◌-◌, ◌^◌, ◌≤◌, ◌<◌, ◌≡◌, ◌≢◌, refl, sym, ap, subst, ◌∙◌, ◌⊎◌, inl, inr, some, List, [],
  ◌++◌, arith, All, All-append, length, length-append, length-drop, All-drop, drop_all, take, drop,
  slice_none,
}
use mathlib.Core.Option.{some-injective}
use ex_netlink.Bytes.{be_value}
use ex_netlink.Buffer.Defs.{
  padding, Buffer, readed_size, append, skip, peek, retrieve_all, circulation_buffer,
}
use ex_netlink.Buffer.Inv.{
  IsValid, contents, readed_size_lem, writed_size_lem, length-contents, circulation_buffer-IsValid,
  contents_straight,
}
use ex_netlink.Buffer.Append.{append_room, append_tail}
use ex_netlink.Buffer.Skip.{skipped, skip_lem, skipped_cases, contents-skipped, skipped-IsValid}
use ex_netlink.Buffer.Peek.{peek-be_value}
use ex_netlink.Buffer.Queue.{
  Queue, empty_queue, Call, QueueStep, appended, emptied, passed, passed_around, peeked, asked,
  QueueRun, ended, after, call, run_calls,
}

-- The buffer holds the queue's bytes, and does not go round the end of its array without need.
pub record Represents (b : Buffer) (q : Queue) : Type 0 where
  pub valid : IsValid b
  pub held : contents b ≡ q.bytes
  pub at : b.readindex ≡ q.position
  pub sized : b.len ≡ q.capacity
  pub bytes : All (λ x. x < 256) q.bytes
  pub tail : q.position + length q.bytes ≤ q.capacity → b.readindex ≤ b.writeindex

held_size : {b : Buffer} {q : Queue} → Represents b q → readed_size b ≡ length q.bytes
held_size {b} v = sym (length-contents v.valid) ∙ ap (length {A = ℕ}) v.held

append-Represents :
    (fresh : ℕ → List ℕ) {b : Buffer} {q : Queue}
    → Represents b q
    → (bytes : List ℕ) → All (λ x. x < 256) bytes
    → length q.bytes + length bytes + padding ≤ q.capacity
    → (c : Buffer) × (append fresh b bytes ≡ some c)
      × Represents c (record q { bytes = q.bytes ++ bytes })
append-Represents fresh {b} {q} v bytes all room =
    let (c, e, a) =
      append_room fresh bytes v.valid
        (omega (arith, writed_size_lem v.valid, held_size v, v.sized)) in
    (
      c,
      e,
      record {
        valid = a.valid;
        held = a.added ∙ ap (λ l. l ++ bytes) v.held;
        at = a.unmoved ∙ v.at;
        sized = a.same_len ∙ v.sized;
        bytes = All-append (λ x. x < 256) q.bytes bytes v.bytes all;
        tail = λ h.
            let straight : b.readindex ≤ b.writeindex =
              v.tail (omega (arith, length-append {0} q.bytes bytes)) in
            let (d, f, _, le) = append_tail fresh bytes v.valid straight (
              omega (
                arith,
                length-append {0} q.bytes bytes,
                v,
                readed_size_lem v.valid,
                held_size v,
              )) in
            subst (λ (x : Buffer). x.readindex ≤ x.writeindex) (some-injective d c (sym f ∙ e)) le;
      },
    )

peeked-value :
    {b : Buffer} {q : Queue}
    → Represents b q
    → (w : ℕ) → w ≤ length q.bytes
    → (w < 4) ⊎ (q.position + w ≢ q.capacity) ⊎ (q.position + length q.bytes ≤ q.capacity)
    → peek w b ≡ some (be_value (take w q.bytes))
peeked-value {b} {q} v w h odd =
    peek-be_value w v.valid (subst (All (λ x. x < 256)) (sym v.held) v.bytes)
      (omega (arith, held_size v)) (λ wraps ends. ground (arith, v, odd))
    ∙ ap (λ l. some (be_value (take w l))) v.held

-- Skipping bytes, where the buffer comes to be `d`.
skip-Represents :
    {b : Buffer} {q : Queue} (n p : ℕ) (rest : List ℕ) (d : Buffer)
    → Represents b q
    → n ≤ length q.bytes
    → skipped b n ≡ d
    → d.len ≡ b.len
    → d.readindex ≡ p
    → padding ≤ p
    → drop n q.bytes ≡ rest
    → (p + length rest ≤ q.capacity → d.readindex ≤ d.writeindex)
    → (c : Buffer) × (skip b n ≡ some c) × Represents c (record q { position = p; bytes = rest })
skip-Represents {b} {q} n p rest d v h e len at room left tail =
    let small : n ≤ readed_size b = omega (arith, held_size v) in
    let inside : padding ≤ d.readindex = omega arith in
    (
      d,
      skip_lem n v.valid small ∙ ap some e,
      record {
        valid = subst IsValid e (
            skipped-IsValid n v.valid small (omega (arith, v.valid))
              (subst (λ (x : Buffer). padding ≤ x.readindex) (sym e) inside));
        held = ap contents (sym e) ∙ contents-skipped n v.valid small ∙ ap (drop n) v.held ∙ left;
        at = at;
        sized = len ∙ v.sized;
        bytes = subst (All (λ x. x < 256)) left (All-drop (λ x. x < 256) n q.bytes v.bytes);
        tail = tail;
      },
    )

-- The three calls of `skip` that the queue allows.
skip_all :
    {b : Buffer} {q : Queue}
    → Represents b q
    → (c : Buffer) × (skip b (length q.bytes) ≡ some c)
      × Represents c (record q { position = padding; bytes = [] })
unfolding retrieve_all
skip_all {b} {q} v = elim (skipped_cases (length q.bytes) v.valid (omega (arith, held_size v))) [
  | inl (e, all) ↦
      skip-Represents (length q.bytes) padding [] (retrieve_all b) v (omega arith) e refl refl
        (omega arith) (drop_all (length q.bytes) q.bytes (omega arith)) (λ _. omega arith)
  | inr (inl (e, lt, _)) ↦ absurd (omega (arith, held_size v))
  | inr (inr (e, lt, _, _)) ↦ absurd (omega (arith, held_size v))
]

skip_inside :
    {b : Buffer} {q : Queue}
    → Represents b q
    → (n : ℕ) → n < length q.bytes
    → q.position + n < q.capacity
    → (c : Buffer) × (skip b n ≡ some c)
      × Represents c (record q { position = q.position + n; bytes = drop n q.bytes })
skip_inside {b} {q} v n lt inside = elim (skipped_cases n v.valid (omega (arith, held_size v))) [
  | inl (e, all) ↦ absurd (omega (arith, held_size v))
  | inr (inl (e, _, c)) ↦
      skip-Represents n _ _ _ v (omega arith) e refl (omega (arith, v)) (omega (arith, v, v.valid))
        refl
        (λ t. omega (
          arith,
          length-drop n q.bytes,
          v,
          v.tail (omega (arith, length-drop n q.bytes)),
          held_size v,
          readed_size_lem v.valid,
        ))
  | inr (inr (e, _, w, ge)) ↦ absurd (omega (arith, v))
]

skip_outside :
    {b : Buffer} {q : Queue}
    → Represents b q
    → (n : ℕ) → n < length q.bytes
    → q.capacity + padding ≤ q.position + n
    → (c : Buffer) × (skip b n ≡ some c)
      × Represents c (record q { position = q.position + n - q.capacity; bytes = drop n q.bytes })
skip_outside {b} {q} v n lt outside = elim (skipped_cases n v.valid (omega (arith, held_size v))) [
  | inl (e, all) ↦ absurd (omega (arith, held_size v))
  | inr (inl (e, _, c)) ↦ absurd (omega (arith, v, v.valid, held_size v, readed_size_lem v.valid))
  | inr (inr (e, _, w, ge)) ↦
      skip-Represents n _ _ _ v (omega arith) e refl (omega (arith, v, v.valid)) (omega arith) refl
        (λ t. omega (arith, v, v.valid, held_size v, readed_size_lem v.valid))
]

module _ (fresh : ℕ → List ℕ) where
  call_lem :
      {b : Buffer} {q r : Queue} {c : Call} {out : List ℕ}
      → Represents b q
      → QueueStep q c r out
      → (d : Buffer) × (call fresh b c ≡ some (d, out)) × Represents d r
  unfolding call
  call_lem {b} {q} v (appended bytes all room) =
      let (c, e, w) = append-Represents fresh v bytes all room in (c, rw e refl, w)
  call_lem {b} {q} v emptied = let (c, e, w) = skip_all v in (c, rw e refl, w)
  call_lem {b} {q} v (passed n lt inside) =
      let (c, e, w) = skip_inside v n lt inside in (c, rw e refl, w)
  call_lem {b} {q} v (passed_around n lt outside) =
      let (c, e, w) = skip_outside v n lt outside in (c, rw e refl, w)
  call_lem {b} {q} v (peeked w h odd) = (b, rw (peeked-value v w h odd) refl, v)
  call_lem {b} {q} v asked = (b, rw (held_size v) refl, v)

  -- From a buffer that holds a queue's bytes, every sequence of calls that the queue allows runs
  -- without a fault, returns the same numbers, and ends in a buffer that holds the bytes at its end.
  pub run_calls-Represents :
      {q r : Queue} {cs : List Call} {outs : List ℕ} (b : Buffer)
      → QueueRun q cs r outs
      → Represents b q
      → (d : Buffer) × (run_calls fresh b cs ≡ some (d, outs)) × Represents d r
  unfolding run_calls
  run_calls-Represents b ended v = (b, refl, v)
  run_calls-Represents b (after step rest) v =
      let (d, e, w) = call_lem v step in
      let (f, g, u) = run_calls-Represents d rest w in (f, rw (e, g) refl, u)

-- A new buffer of `n` bytes holds the empty queue.
pub new-Represents :
    (n : ℕ) → padding ≤ n → n < 2 ^ 62 → Represents (circulation_buffer n) (empty_queue n)
unfolding circulation_buffer
new-Represents n h s = record {
  valid = circulation_buffer-IsValid n h s;
  held =
      contents_straight (circulation_buffer n) (omega arith)
      ∙ slice_none (circulation_buffer n).buf padding;
  at = refl;
  sized = refl;
  bytes = tt;
  tail = λ _. omega arith;
}
