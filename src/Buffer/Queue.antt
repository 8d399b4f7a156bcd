-- ===== src/Buffer/Queue.antt =====
-- What `circulation_buffer` promises to a client that stays within its room: a queue of bytes.
pub mod Refines
use ex_netlink.Base.{
  ℕ, ◌+◌, ◌-◌, ◌≤◌, ◌<◌, ◌≡◌, ◌≢◌, ◌⊎◌, Option, some, List, [], ◌∷◌, ◌++◌, ◌>>=◌, All, length, take,
  drop,
}
use ex_netlink.Bytes.{be_value}
use ex_netlink.Buffer.Defs.{padding, Buffer, readed_size, append, skip, peek}

-- The bytes queued, and the index of the first one, on which the limits of `skip` and `peek` depend.
pub record Queue : Type 0 where
  pub capacity : ℕ
  pub position : ℕ
  pub bytes : List ℕ

abbrev pub empty_queue : ℕ → Queue
empty_queue n = record { capacity = n; position = padding; bytes = [] }

pub data Call : Type 0 where
  appends : List ℕ → Call
  skips peeks : ℕ → Call
  asks_readed_size : Call

-- What each call may do to a queue, and the numbers that it returns.
pub data QueueStep (q : Queue) : Call → Queue → List ℕ → Type 0 where
  appended :
      (bytes : List ℕ)
      → All (λ x. x < 256) bytes
      → length q.bytes + length bytes + padding ≤ q.capacity
      → QueueStep q (appends bytes) (record q { bytes = q.bytes ++ bytes }) []
  emptied : QueueStep q (skips (length q.bytes)) (record q { position = padding; bytes = [] }) []
  passed :
      (n : ℕ)
      → n < length q.bytes
      → q.position + n < q.capacity
      → QueueStep q (skips n) (record q { position = q.position + n; bytes = drop n q.bytes }) []
  passed_around :
      (n : ℕ)
      → n < length q.bytes
      → q.capacity + padding ≤ q.position + n
      → QueueStep q
          (skips n)
          (record q { position = q.position + n - q.capacity; bytes = drop n q.bytes })
          []
  peeked :
      (w : ℕ)
      → w ≤ length q.bytes
      → (w < 4) ⊎ (q.position + w ≢ q.capacity) ⊎ (q.position + length q.bytes ≤ q.capacity)
      → QueueStep q (peeks w) q (be_value (take w q.bytes) ∷ [])
  asked : QueueStep q asks_readed_size q (length q.bytes ∷ [])

pub data QueueRun : Queue → List Call → Queue → List ℕ → Type 0 where
  ended : {q : Queue} → QueueRun q [] q []
  after :
      {q : Queue} {c : Call} {r : Queue} {out : List ℕ} {cs : List Call} {s : Queue} {outs : List ℕ}
      → QueueStep q c r out
      → QueueRun r cs s outs
      → QueueRun q (c ∷ cs) s (out ++ outs)

-- The same calls on `circulation_buffer`.
unfoldable pub call : (ℕ → List ℕ) → Buffer → Call → Option (Buffer × List ℕ)
call fresh b (appends bytes) = append fresh b bytes >>= λ c. some (c, [])
call fresh b (skips n) = skip b n >>= λ c. some (c, [])
call fresh b (peeks w) = peek w b >>= λ x. some (b, x ∷ [])
call fresh b asks_readed_size = some (b, readed_size b ∷ [])

unfoldable pub run_calls : (ℕ → List ℕ) → Buffer → List Call → Option (Buffer × List ℕ)
run_calls fresh b [] = some (b, [])
run_calls fresh b (c ∷ cs) = do
  (d, out) ← call fresh b c
  (e, outs) ← run_calls fresh d cs
  some (e, out ++ outs)
