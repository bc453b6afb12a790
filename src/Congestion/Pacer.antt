-- ===== src/Congestion/Pacer.antt =====
-- internal/congestion/common/pacer.go: the token bucket that paces packets. A byte count and a time
-- are int64s from 0 up to 2 ^ 63, times in nanoseconds. The products with the bandwidth and the sums
-- of the budget wrap around as int64s, the missing bytes as a uint64; the size of a burst of packets
-- and the time to wait are taken to fit. `bandwidth` is what `getBandwidth` returns at the call.
-- quic-go's `InitialPacketSize` and `MinPacingDelay` are parameters.
pub mod Waiting
mod Tests
use open_air.Prelude.{
  ℕ, suc, ◌+◌, ◌-◌, ◌*◌, ◌/◌, ◌%◌, ◌^◌, min, max, Bool, true, false, ltb, leb, ◌==◌, if◌then◌else◌,
  Option, none, some,
}

abbrev pub max_burst_packets : ℕ
max_burst_packets = 10

abbrev pub max_burst_pacing_delay_multiplier : ℕ
max_burst_pacing_delay_multiplier = 4

-- `last_sent_time` is 0 for the zero time.
pub record Pacer : Type 0 where
  pub budget_at_last_sent : ℕ
  pub max_datagram_size : ℕ
  pub last_sent_time : ℕ

abbrev pub new_pacer : ℕ → Pacer
new_pacer initial_packet_size = record {
  budget_at_last_sent = max_burst_packets * initial_packet_size;
  max_datagram_size = initial_packet_size;
  last_sent_time = 0;
}

-- The low 64 bits of `bandwidth * (now - last)`.
abbrev pub earned_bits : ℕ → ℕ → ℕ → ℕ
earned_bits bandwidth now last =
    if leb last now
    then bandwidth * (now - last) % 2 ^ 64
    else (2 ^ 64 - bandwidth * (last - now) % 2 ^ 64) % 2 ^ 64

-- `budget + w / 1e9` for the int64 that the bits `w` are, with the largest budget for what is negative.
abbrev pub added : ℕ → ℕ → ℕ
added budget w =
    if ltb w (2 ^ 63)
    then (if ltb (budget + w / 10 ^ 9) (2 ^ 63) then budget + w / 10 ^ 9 else 2 ^ 62 - 1)
    else if ltb budget ((2 ^ 64 - w) / 10 ^ 9)
    then 2 ^ 62 - 1
    else budget - (2 ^ 64 - w) / 10 ^ 9

-- The nanoseconds that `diff` billionths of a byte take, rounded up.
abbrev pub rounded_up : ℕ → ℕ → ℕ
rounded_up bandwidth diff =
    if ltb 0 (diff % bandwidth) then diff / bandwidth + 1 else diff / bandwidth

module _ (min_pacing_delay bandwidth : ℕ) where
  -- `maxBurstSize`
  unfoldable pub max_burst_size : Pacer → ℕ
  max_burst_size p =
      let w = max_burst_pacing_delay_multiplier * min_pacing_delay * bandwidth % 2 ^ 64 in
      let packets = max_burst_packets * p.max_datagram_size in
      if ltb w (2 ^ 63) then max (w / 10 ^ 9) packets else packets

  unfoldable pub budget : Pacer → ℕ → ℕ
  budget p now =
      if p.last_sent_time == 0
      then max_burst_size p
      else min (max_burst_size p)
          (added p.budget_at_last_sent (earned_bits bandwidth now p.last_sent_time))

  unfoldable pub sent_packet : Pacer → ℕ → ℕ → Pacer
  sent_packet p send_time size =
      let b = budget p send_time in
      record p {
        budget_at_last_sent = if ltb b size then 0 else b - size;
        last_sent_time = send_time;
      }

  -- `TimeUntilSend`: 0 for a packet that can be sent at once; a division by zero is `none`.
  unfoldable pub time_until_send : Pacer → Option ℕ
  time_until_send p =
      let diff = 10 ^ 9 * (p.max_datagram_size - p.budget_at_last_sent) % 2 ^ 64 in
      if leb p.max_datagram_size p.budget_at_last_sent
      then some 0
      else if bandwidth == 0
      then none
      else some (p.last_sent_time + max min_pacing_delay (rounded_up bandwidth diff))

abbrev pub set_max_datagram_size : Pacer → ℕ → Pacer
set_max_datagram_size p s = record p { max_datagram_size = s }
