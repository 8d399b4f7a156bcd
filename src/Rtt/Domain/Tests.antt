-- ===== src/Rtt/Domain/Tests.antt =====
-- A table of two connections, the loop over one, and a write of four bytes of ten.
use ex_netlink.Base.{ℕ, ◌≡◌, refl, Option, none, some, List, [], ◌∷◌, ◌++◌, true, false}
use ex_netlink.Buffer.{Buffer, readed_size, skip, copy_out, zeros}
use ex_netlink.Sockops.Calls.{returned}
use ex_netlink.Rtt.Package.{rbuffer}
use ex_netlink.Rtt.Socket.{normal}
use ex_netlink.Rtt.Translation.{
  Translation, TranslationState, Connector, new_connector, pointer, get_data,
}
use ex_netlink.Rtt.Domain.{
  Bits, no_bits, connect_bits, Slot, Domain, on_new_connect, has_key, place, dispose, clear,
  erase_key, Written, fails, wrote,
}
use ex_netlink.Rtt.Domain.Turn.{
  Calls, drains, shuts, falls, faults, on_out, drain, alter, with_translation, update,
  store_pointed, turn, translation_of, wait_out, and_then, on_in, receive, log, or_fault,
}
use ex_netlink.Rtt.Domain.Pass.{World, follow, log_pass, pass, walk, visit, is_ready}
use ex_netlink.Rtt.Domain.Matched.{IsMatched}
use ex_netlink.Rtt.Domain.Reach.{
  Reach, start, connected, polled, walked, set_revents, Reach-IsMatched,
}

abbrev slot_of : ℕ → Bits → Slot
slot_of f bits = record { fd = some f; events = connect_bits; revents = bits }

abbrev bare : ℕ → Connector
bare f = new_connector (some f) none normal (some f)

abbrev buffers : Translation
buffers = record { state = TranslationState.connected; rbuffer = rbuffer; wbuffer = rbuffer }

abbrev full : ℕ → Connector
full f = record (bare f) { stored = pointer buffers }

-- What read(2) and write(2) return.
abbrev calls_of : Option (List ℕ) → Written → Calls
calls_of bytes n = record {
  read = bytes;
  recv_time = 1020;
  send_time = 1025;
  answered = n;
  eagain = false;
  drained = n;
  wouldblock = true;
  eintr = false;
}

abbrev world_of : Option (List ℕ) → Written → World
world_of bytes n = record {
  accepted = returned 9;
  addr = [];
  owner = 0;
  calls = λ i. calls_of bytes n;
}

abbrev in_bits : Bits
in_bits = record { pollin = true; pollout = false; pollerr = false }

-- Two connections, of which the second one has ended.
abbrev five_left : Domain
five_left = record {
  fds = slot_of 5 no_bits ∷ record { fd = none; events = no_bits; revents = in_bits } ∷ [];
  translations = (5, bare 5) ∷ [];
}

five_left_reached : Reach zeros five_left
unfolding on_new_connect has_key place dispose clear erase_key set_revents pass walk visit turn
    follow is_ready and_then on_in receive log or_fault log_pass
five_left_reached =
    walked (world_of none fails) (shuts 6 ∷ [])
      (polled (no_bits ∷ in_bits ∷ [])
        (connected 6 (bare 6) (connected 5 (bare 5) start refl) refl))
      refl

Reach-IsMatched_example : IsMatched five_left
Reach-IsMatched_example = Reach-IsMatched five_left_reached

-- A new connection takes the entry of one that is gone, with the bits that are there.
entry_taken :
    on_new_connect five_left 6 (bare 6)
    ≡ some (record {
      fds = slot_of 5 no_bits ∷ slot_of 6 in_bits ∷ [];
      translations = (6, bare 6) ∷ (5, bare 5) ∷ [];
    })
unfolding on_new_connect has_key place
entry_taken = refl

abbrev one : Domain
one = record { fds = slot_of 6 no_bits ∷ []; translations = (6, bare 6) ∷ [] }

-- A buffer of ten bytes, all behind each other, and one that wraps round.
abbrev ten_left : Buffer
ten_left = record {
  buf = zeros 8 ++ (1 ∷ 2 ∷ 3 ∷ 4 ∷ 5 ∷ 6 ∷ 7 ∷ 8 ∷ 9 ∷ 10 ∷ zeros 2);
  len = 20;
  readindex = 8;
  writeindex = 18;
}

abbrev wrapped : Buffer
wrapped = record ten_left { readindex = 16; writeindex = 10 }

abbrev draining : Buffer → Domain
draining b = record {
  fds = slot_of 6 no_bits ∷ [];
  translations = (6, record (bare 6) { stored = pointer (record buffers { wbuffer = b }) }) ∷ [];
}

-- Of ten bytes, write(2) takes four.
four_drained :
    on_out zeros (calls_of none (wrote 4)) 0 6 (draining ten_left)
    ≡ falls
        (record {
          fds = wait_out (slot_of 6 no_bits) ∷ [];
          translations =
              (
                6,
                record (bare 6) {
                  stored =
                      pointer (record buffers { wbuffer = record ten_left { readindex = 12 } });
                },
              )
              ∷ [];
        })
        (drains 6 (1 ∷ 2 ∷ 3 ∷ 4 ∷ []) ∷ [])
unfolding on_out drain or_fault translation_of get_data copy_out readed_size skip alter
    with_translation update store_pointed
four_drained = refl

past_the_end : on_out zeros (calls_of none (wrote 4)) 0 6 (draining wrapped) ≡ faults
unfolding on_out drain or_fault translation_of get_data copy_out readed_size
past_the_end = refl
