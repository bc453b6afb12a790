-- ===== src/Congestion/PacketQueue.antt =====
-- internal/congestion/bbr/packet_number_indexed_queue.go, over the ring buffer. A packet number is a
-- number, and `invalidPacketNumber` is none; packet numbers are not followed past the end of an
-- int64. An operation that returns none is one that panics,
-- the ring buffer's panic on an index out of range included; an entry that is nil is `some none`.
pub mod View
pub mod Gap
pub mod Emplacing
pub mod Clearing
pub mod Taking
pub mod Removing
mod Tests
use open_air.Prelude.{
  ℕ, zero, suc, ◌+◌, ◌-◌, Bool, true, false, not, ◌&&◌, ◌||◌, leb, ltb, ◌==◌, if◌then◌else◌, get_or,
  set, Option, none, some,
}
use open_air.Congestion.RingBuffer.{
  RingBuffer, len, is_empty, offset, front, init, push_back, pop_front,
}

-- `entryWrapper`
pub record EntryWrapper {ℓ} (A : Type ℓ) : Type ℓ where
  pub present : Bool
  pub entry : A

pub record PacketQueue {ℓ} (A : Type ℓ) : Type ℓ where
  pub entries : RingBuffer (EntryWrapper A)
  pub number_of_present_entries : ℕ
  pub first_packet : Option ℕ

module _ {ℓ} {A : Type ℓ} where
  -- `IsEmpty`
  unfoldable pub is_empty_queue : PacketQueue A → Bool
  is_empty_queue q = q.number_of_present_entries == 0

  -- `LastPacket`
  unfoldable pub last_packet : PacketQueue A → Option ℕ
  last_packet q = elim q.first_packet [
    | none ↦ none
    | some first ↦ if is_empty_queue q then none else some (first + (len q.entries - 1))
  ]

module _ {ℓ} {A : Type ℓ} (z : A) where
  -- The zero value of `entryWrapper[T]`.
  abbrev pub absent : EntryWrapper A
  absent = record { present = false; entry = z }

  abbrev pub holding : A → EntryWrapper A
  holding a = record { present = true; entry = a }

  unfoldable pub new_packet_queue : ℕ → PacketQueue A
  new_packet_queue size = record {
    entries = init absent size;
    number_of_present_entries = 0;
    first_packet = none;
  }

  -- The loop over the gap, and the entry behind it.
  unfoldable pub push_after :
      ℕ → A → RingBuffer (EntryWrapper A) → Option (RingBuffer (EntryWrapper A))
  push_after zero a r = push_back absent r (holding a)
  push_after (suc gap) a r = elim (push_back absent r absent) [
    | none ↦ none
    | some r' ↦ push_after gap a r'
  ]

  -- `Emplace` into a queue that is not empty, `first` its first packet and `last` its last.
  unfoldable pub emplace_behind : PacketQueue A → ℕ → ℕ → ℕ → A → Option (PacketQueue A × Bool)
  emplace_behind q first last packet_number a =
      if leb packet_number last
      then some (q, false)
      else elim (push_after (packet_number - first - len q.entries) a q.entries) [
        | none ↦ none
        | some r ↦ some (
          record q { entries = r; number_of_present_entries = suc q.number_of_present_entries },
          true,
        )
      ]

  unfoldable pub emplace : PacketQueue A → Option ℕ → Option A → Option (PacketQueue A × Bool)
  emplace q none entry = some (q, false)
  emplace q (some packet_number) none = some (q, false)
  emplace q (some packet_number) (some a) =
      if is_empty_queue q
      then elim (push_back absent q.entries (holding a)) [
        | none ↦ none
        | some r ↦ some (
          record { entries = r; number_of_present_entries = 1; first_packet = some packet_number },
          true,
        )
      ]
      else elim q.first_packet [
        | none ↦ none
        | some first ↦ emplace_behind q first (first + (len q.entries - 1)) packet_number a
      ]

  -- `getEntryWraper`: where the entry stands in the ring, and `some none` for nil.
  unfoldable pub entry_place : PacketQueue A → ℕ → Option (Option ℕ)
  entry_place q packet_number = elim q.first_packet [
    | none ↦ some none
    | some first ↦
        if is_empty_queue q || ltb packet_number first
        then some none
        else if leb (len q.entries) (packet_number - first)
        then some none
        else elim (offset q.entries (packet_number - first)) [
          | none ↦ none
          | some p ↦ some (if (get_or q.entries.ring p absent).present then some p else none)
        ]
  ]

  unfoldable pub get_entry : PacketQueue A → Option ℕ → Option (Option A)
  get_entry q none = some none
  get_entry q (some packet_number) = elim (entry_place q packet_number) [
    | none ↦ none
    | some none ↦ some none
    | some (some p) ↦ some (some (get_or q.entries.ring p absent).entry)
  ]

  -- `p.entries.PopFront()` and `p.firstPacket++`
  unfoldable pub drop_front : PacketQueue A → Option (PacketQueue A)
  drop_front q = elim (pop_front absent q.entries) [
    | none ↦ none
    | some (w, r) ↦ some (record q {
      entries = r;
      first_packet = elim q.first_packet [ none ↦ none | some first ↦ some (suc first) ];
    })
  ]

  -- Whether the ring has a front that is not present.
  unfoldable pub front_absent : PacketQueue A → Bool
  front_absent q = elim (front q.entries) [
    | none ↦ false
    | some p ↦ not (get_or q.entries.ring p absent).present
  ]

  -- The loop of `clearup`, with fuel.
  unfoldable pub clear_loop : ℕ → PacketQueue A → Option (PacketQueue A)
  clear_loop zero q = none
  clear_loop (suc n) q =
      if front_absent q
      then elim (drop_front q) [ none ↦ none | some q' ↦ clear_loop n q' ]
      else some q

  unfoldable pub clearup : PacketQueue A → Option (PacketQueue A)
  clearup q = elim (clear_loop (suc (len q.entries)) q) [
    | none ↦ none
    | some q' ↦ some (if is_empty q'.entries then record q' { first_packet = none } else q')
  ]

  -- The end of `Remove`: an entry at the front goes, with what is not present behind it.
  unfoldable pub finish_remove :
      Option ℕ → ℕ → PacketQueue A → A → Option (PacketQueue A × Option A)
  finish_remove none packet_number q a = some (q, some a)
  finish_remove (some first) packet_number q a =
      if packet_number == first
      then elim (clearup q) [ none ↦ none | some q' ↦ some (q', some a) ]
      else some (q, some a)

  -- `Remove`, with what `f` is called with.
  unfoldable pub remove : PacketQueue A → Option ℕ → Option (PacketQueue A × Option A)
  remove q none = some (q, none)
  remove q (some packet_number) = elim (entry_place q packet_number) [
    | none ↦ none
    | some none ↦ some (q, none)
    | some (some p) ↦
        let w = get_or q.entries.ring p absent in
        let q' : PacketQueue A = record q {
          entries = record (q.entries) {
            ring = set q.entries.ring p (record w { present = false });
          };
          number_of_present_entries = q.number_of_present_entries - 1;
        } in
        finish_remove q.first_packet packet_number q' w.entry
  ]

  -- The loop of `RemoveUpTo`, with fuel.
  unfoldable pub remove_loop : ℕ → ℕ → PacketQueue A → Option (PacketQueue A)
  remove_loop zero packet_number q = none
  remove_loop (suc n) packet_number q = elim q.first_packet [
    | none ↦ some q
    | some first ↦
        if is_empty q.entries || leb packet_number first
        then some q
        else elim (drop_front (record q {
          number_of_present_entries =
              if front_absent q
              then q.number_of_present_entries
              else q.number_of_present_entries - 1;
        })) [ none ↦ none | some q' ↦ remove_loop n packet_number q' ]
  ]

  -- With a number that is not valid the loop does not turn.
  unfoldable pub remove_up_to : PacketQueue A → Option ℕ → Option (PacketQueue A)
  remove_up_to q none = clearup q
  remove_up_to q (some packet_number) = elim (remove_loop (suc (len q.entries)) packet_number q) [
    | none ↦ none
    | some q' ↦ clearup q'
  ]
