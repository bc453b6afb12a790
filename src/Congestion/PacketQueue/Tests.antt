-- ===== src/Congestion/PacketQueue/Tests.antt =====
-- A queue of letters: 7 holds a, 9 holds c, and there is none for 8.
use open_air.Prelude.{ℕ, ◌+◌, ◌<◌, ◌≡◌, ◌⊎◌, inr, refl, true, false, [], ◌∷◌, none, some, arith}
use open_air.Congestion.RingBuffer.{len}
use open_air.Congestion.PacketQueue.{PacketQueue, absent, holding, emplace, get_entry, remove}
use open_air.Congestion.PacketQueue.View.{count_present, value, view, Valid, get_entry-view}
use open_air.Congestion.PacketQueue.Emplacing.{Behind, Emplaced, emplace_lem}
use open_air.Congestion.PacketQueue.Removing.{Removed, remove_lem}

abbrev queue : PacketQueue ℕ
queue = record {
  entries = record {
    ring = holding 0 97 ∷ absent 0 ∷ holding 0 99 ∷ absent 0 ∷ [];
    head_pos = 0;
    tail_pos = 3;
    full = false;
  };
  number_of_present_entries = 2;
  first_packet = some 7;
}

queue-Valid : Valid 0 queue
unfolding count_present len
queue-Valid = record {
  ring = record { in_range = inr (omega arith, omega arith); full_meets = λ e. absurd (cc) };
  count = refl;
  shape = inr (7, holding 0 97, absent 0 ∷ holding 0 99 ∷ [], refl, refl, refl);
}

get_entry-view_example : get_entry 0 queue (some 9) ≡ some (some 99)
unfolding view value len
get_entry-view_example = get_entry-view 0 queue 9 queue-Valid

emplace_lem_example :
    ((((queue.first_packet ≡ none) ⊎ Behind 0 queue 12)
        × ((q' : PacketQueue ℕ) × (emplace 0 queue (some 12) (some 102) ≡ some (q', true))
            × Emplaced 0 queue 12 102 q'))
      ⊎ ((first : ℕ) × (queue.first_packet ≡ some first)
          × (12 < first + len queue.entries)
          × (emplace 0 queue (some 12) (some 102) ≡ some (queue, false))))
    × (emplace 0 queue none (some 102) ≡ some (queue, false))
    × (emplace 0 queue (some 12) none ≡ some (queue, false))
emplace_lem_example = emplace_lem 0 queue 12 102 queue-Valid

remove_lem_example :
    (((view 0 queue 7 ≡ none) × (remove 0 queue (some 7) ≡ some (queue, none)))
      ⊎ ((a : ℕ) × (q' : PacketQueue ℕ) × (remove 0 queue (some 7) ≡ some (q', some a))
          × Removed 0 queue 7 queue-Valid a q'))
    × (remove 0 queue none ≡ some (queue, none))
remove_lem_example = remove_lem 0 queue 7 queue-Valid
