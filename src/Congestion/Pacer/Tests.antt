-- ===== src/Congestion/Pacer/Tests.antt =====
-- A pacer at a million bytes per second.
use open_air.Prelude.{ℕ, ◌+◌, ◌^◌, ◌≤◌, ◌<◌, ◌≡◌, ◌⊎◌, refl, none, some, arith}
use open_air.Congestion.Pacer.{
  Pacer, new_pacer, max_burst_size, budget, sent_packet, time_until_send,
}
use open_air.Congestion.Pacer.Waiting.{time_until_send-budget}

abbrev bandwidth : ℕ
bandwidth = 10 ^ 6

abbrev delay : ℕ
delay = 10 ^ 6

abbrev spent : Pacer
spent = record { budget_at_last_sent = 200; max_datagram_size = 1200; last_sent_time = 5000 }

full_burst : budget delay bandwidth (new_pacer 1280) 7 ≡ 12800
unfolding budget max_burst_size
full_burst = refl

emptied : (sent_packet delay bandwidth spent 5000 1280).budget_at_last_sent ≡ 0
unfolding sent_packet budget max_burst_size
emptied = refl

stopped : time_until_send delay 0 spent ≡ none
unfolding time_until_send
stopped = refl

one_millisecond : time_until_send delay bandwidth spent ≡ some 1005000
unfolding time_until_send
one_millisecond = refl

time_until_send-budget_test :
    ((1005000 ≤ 1005000) × (1200 ≤ budget delay bandwidth spent 1005000))
    ⊎ ((1005000 < 1005000)
        × ((1005000 < 5000 + delay) ⊎ (budget delay bandwidth spent 1005000 < 1200)))
time_until_send-budget_test =
    time_until_send-budget delay bandwidth spent 1005000 1005000 (omega arith) (omega arith)
      one_millisecond
      (record {
        started = omega arith;
        later = omega arith;
        earned_fits = omega arith;
        sum_fits = omega arith;
      })
