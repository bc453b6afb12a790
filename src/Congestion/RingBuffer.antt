-- ===== src/Congestion/RingBuffer.antt =====
-- internal/congestion/bbr/ringbuffer.go. A method that updates `r` returns the new ring; `none` is
-- a panic, the method's own or an index out of range. A pointer to an element is its position in
-- `ring`. `z` is the element type's zero value.
pub mod Contents
pub mod Places
pub mod Push
pub mod Pop
pub mod Access
pub mod Write
mod Tests
use open_air.Prelude.{
  ℕ, ◌+◌, ◌-◌, ◌*◌, ◌%◌, Bool, true, false, not, ◌&&◌, ◌||◌, List, [], ◌++◌, Option, none, some,
  ltb, leb, ◌==◌, if◌then◌else◌, length, get_or, get_elem?, set, take, drop, replicate, map,
}
use mathlib.Core.Option

pub record RingBuffer {ℓ} (A : Type ℓ) : Type ℓ where
  pub ring : List A
  pub head_pos : ℕ
  pub tail_pos : ℕ
  pub full : Bool

module _ {ℓ} {A : Type ℓ} where
  -- `Len`
  unfoldable pub len : RingBuffer A → ℕ
  len r =
      if r.full
      then length r.ring
      else if leb r.head_pos r.tail_pos
      then r.tail_pos - r.head_pos
      else r.tail_pos + length r.ring - r.head_pos

  -- `Empty`
  unfoldable pub is_empty : RingBuffer A → Bool
  is_empty r = not r.full && r.head_pos == r.tail_pos

  -- `Offset`, `Front` and `Back`: where the element stands.
  unfoldable pub offset : RingBuffer A → ℕ → Option ℕ
  offset r index =
      if is_empty r || leb (len r) index then none else some ((r.head_pos + index) % length r.ring)

  pub front : RingBuffer A → Option ℕ
  front r = if is_empty r then none else some r.head_pos

  pub back : RingBuffer A → Option ℕ
  back r = if is_empty r then none else offset r (len r - 1)

module _ {ℓ} {A : Type ℓ} (z : A) where
  -- `Init` of a zero `RingBuffer`.
  unfoldable pub init : ℕ → RingBuffer A
  init size = record { ring = replicate size z; head_pos = 0; tail_pos = 0; full = false }

  -- The two copies of `grow` fill the new ring from its start; what they leave is zero.
  pub grow : RingBuffer A → RingBuffer A
  grow r =
      let old = r.ring in
      let new_size = if length old * 2 == 0 then 1 else length old * 2 in
      record {
        ring = drop r.head_pos old ++ (take r.head_pos old ++ replicate (new_size - length old) z);
        head_pos = 0;
        tail_pos = length old;
        full = false;
      }

  -- `PushBack` once there is room.
  pub push_at_tail : RingBuffer A → A → Option (RingBuffer A)
  push_at_tail r a =
      let next = if r.tail_pos + 1 == length r.ring then 0 else r.tail_pos + 1 in
      if leb (length r.ring) r.tail_pos
      then none
      else some (record {
        ring = set r.ring r.tail_pos a;
        head_pos = r.head_pos;
        tail_pos = next;
        full = if next == r.head_pos then true else r.full;
      })

  unfoldable pub push_back : RingBuffer A → A → Option (RingBuffer A)
  unfolding push_at_tail
  push_back r a = if r.full || length r.ring == 0 then push_at_tail (grow r) a else push_at_tail r a

  unfoldable pub pop_front : RingBuffer A → Option (A × RingBuffer A)
  pop_front r =
      let next = if r.head_pos + 1 == length r.ring then 0 else r.head_pos + 1 in
      if is_empty r
      then none
      else Option.map
          (λ t. (
            t,
            record {
              ring = set r.ring r.head_pos z;
              head_pos = next;
              tail_pos = r.tail_pos;
              full = false;
            },
          ))
          (get_elem? r.ring r.head_pos)

  unfoldable pub clear : RingBuffer A → RingBuffer A
  clear r = record { ring = map (λ _. z) r.ring; head_pos = 0; tail_pos = 0; full = false }
