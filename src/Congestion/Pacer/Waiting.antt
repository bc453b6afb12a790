-- ===== src/Congestion/Pacer/Waiting.antt =====
-- How long to wait: until there is budget for a datagram, and no longer.
use native.Mathlib.Nat.{mod-add-div, mod-lt, mod-eq_of_lt, mul-le-mul_left}
use open_air.Prelude.{
  ℕ, ◌+◌, ◌-◌, ◌*◌, ◌/◌, ◌%◌, ◌^◌, min, max, ◌≤◌, ◌<◌, ◌≡◌, ◌⊎◌, inl, inr, ap, ◌∙◌, true, false,
  Bool-cases, ltb, ltb→lt, leb→le, leb, ◌==◌, Option, some, dec_lt, arith,
}
use open_air.Congestion.Pacer.{
  Pacer, added, earned_bits, max_burst_size, budget, rounded_up, time_until_send,
}

-- Rounding up is enough, and one less is not.
rounded_up-enough : (bw diff : ℕ) → 0 < bw → diff ≤ bw * rounded_up bw diff
rounded_up-enough bw diff h =
    let whole : diff % bw + bw * (diff / bw) ≡ diff = mod-add-div diff bw in
    let small : diff % bw < bw = mod-lt diff h in
    elim (Bool-cases (ltb 0 (diff % bw))) [
      | inl part ↦
          let next : bw * (diff / bw + 1) ≡ bw * (diff / bw) + bw = omega arith in
          rw part (omega (arith, next, whole, small))
      | inr even ↦
          let none_left : diff % bw ≡ 0 = ground (arith, even) in
          rw even (omega (arith, whole, none_left))
    ]

rounded_up-least : (bw diff n : ℕ) → 0 < bw → n < rounded_up bw diff → bw * n < diff
rounded_up-least bw diff n h early =
    let whole : diff % bw + bw * (diff / bw) ≡ diff = mod-add-div diff bw in
    elim (Bool-cases (ltb 0 (diff % bw))) [
      | inl part ↦
          let some_left : 0 < diff % bw = ltb→lt 0 (diff % bw) part in
          let below : n < diff / bw + 1 = rw part at early in
          let le : bw * n ≤ bw * (diff / bw) = mul-le-mul_left bw (omega (arith, below)) in
          omega (arith, whole, some_left, le)
      | inr even ↦
          let below : n < diff / bw = rw even at early in
          let le : bw * (n + 1) ≤ bw * (diff / bw) = mul-le-mul_left bw (omega (arith, below)) in
          let next : bw * (n + 1) ≡ bw * n + bw = omega arith in omega (arith, whole, le, next, h)
    ]

added_plain : (b w : ℕ) → w < 2 ^ 63 → b + w / 10 ^ 9 < 2 ^ 63 → added b w ≡ b + w / 10 ^ 9
added_plain b w h k = ground arith

-- What the bandwidth gave since the last packet, where nothing overflows.
pub record Plain (bw : ℕ) (p : Pacer) (now : ℕ) : Type 0 where
  pub started : 0 < p.last_sent_time
  pub later : p.last_sent_time ≤ now
  pub earned_fits : bw * (now - p.last_sent_time) < 2 ^ 63
  pub sum_fits : p.budget_at_last_sent + bw * (now - p.last_sent_time) / 10 ^ 9 < 2 ^ 63

earned_bits_plain :
    (bw now last : ℕ)
    → last ≤ now
    → bw * (now - last) < 2 ^ 63
    → earned_bits bw now last ≡ bw * (now - last)
earned_bits_plain bw now last le fits =
    let forward : leb last now ≡ true = ground (arith, le) in
    rw forward (mod-eq_of_lt (omega (arith, fits)))

module _ (delay bw : ℕ) (p : Pacer) where
  max_burst_size-le : p.max_datagram_size ≤ max_burst_size delay bw p
  unfolding max_burst_size
  max_burst_size-le = ground arith

  budget-Plain :
      (now : ℕ)
      → Plain bw p now
      → budget delay bw p now
        ≡ min
            (max_burst_size delay bw p)
            (p.budget_at_last_sent + bw * (now - p.last_sent_time) / 10 ^ 9)
  unfolding budget
  budget-Plain now h =
      let started : (p.last_sent_time == 0) ≡ false = ground (arith, h.started) in
      let bits = earned_bits_plain bw now p.last_sent_time h.later h.earned_fits in
      let sum =
        added_plain p.budget_at_last_sent (bw * (now - p.last_sent_time)) h.earned_fits
          h.sum_fits in
      rw started
        (ap (λ s. min (max_burst_size delay bw p) s) (ap (added p.budget_at_last_sent) bits ∙ sum))

  -- `TimeUntilSend` is when there is budget for a datagram, with some bandwidth, once a first
  -- packet was sent and where nothing overflows: from then on there is, and before then, but for
  -- the least delay that the pacer may ask for, there is not.
  pub time_until_send-budget :
      (t now : ℕ)
      → 0 < bw
      → 10 ^ 9 * p.max_datagram_size < 2 ^ 64
      → time_until_send delay bw p ≡ some t
      → Plain bw p now
      → ((t ≤ now) × (p.max_datagram_size ≤ budget delay bw p now))
        ⊎ ((now < t)
            × ((now < p.last_sent_time + delay) ⊎ (budget delay bw p now < p.max_datagram_size)))
  unfolding time_until_send
  time_until_send-budget t now some_bw fits e h =
      let value = budget-Plain now h in
      let burst = max_burst_size-le in
      let diff = 10 ^ 9 * (p.max_datagram_size - p.budget_at_last_sent) in
      let elapsed = now - p.last_sent_time in
      elim (Bool-cases (leb p.max_datagram_size p.budget_at_last_sent)) [
        | inl now_already ↦
            let at_once : ◌≡◌ {A = Option ℕ} (some 0) (some t) = rw now_already at e in
            let t_zero : t ≡ 0 = cc in
            let enough = leb→le p.max_datagram_size p.budget_at_last_sent now_already in
            inl (omega (arith, t_zero), rw value (omega (arith, burst, enough)))
        | inr short ↦
            let busy : (bw == 0) ≡ false = ground (arith, some_bw) in
            let bits : diff % 2 ^ 64 ≡ diff = mod-eq_of_lt (omega (arith, fits)) in
            let wait = max delay (rounded_up bw diff) in
            let after : ◌≡◌ {A = Option ℕ} (some (p.last_sent_time + wait)) (some t) =
              rw (short, busy, bits) at e in
            let t_is : p.last_sent_time + wait ≡ t = cc in
            let up = rounded_up-enough bw diff some_bw in
            let lack : p.budget_at_last_sent < p.max_datagram_size = ground (arith, short) in
            let late = h.later in
            elim (dec_lt now t) [
              | no reached ↦
                  let long : bw * rounded_up bw diff ≤ bw * elapsed =
                    mul-le-mul_left bw (omega (arith, reached, t_is, late)) in
                  inl (omega (arith, reached), rw value (omega (arith, up, long, burst, lack)))
              | yes early ↦ inr (
                early,
                elim (dec_lt now (p.last_sent_time + delay)) [
                  | yes soon ↦ inl soon
                  | no past ↦
                      let brief : bw * elapsed < diff =
                        rounded_up-least bw diff elapsed some_bw
                          (omega (arith, early, past, t_is, late)) in
                      inr (rw value (omega (arith, brief, lack)))
                ],
              )
            ]
      ]
