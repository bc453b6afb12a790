-- ===== src/Congestion/WindowedFilter/Order.antt =====
-- The invariant that the comment at the head of windowed_filter.go claims: the estimates stand in
-- the order of their times, and in the order of their samples.
use open_air.Prelude.{
  ℕ, ◌-◌, ◌^◌, ◌≤◌, ◌<◌, ◌≡◌, ◌⊎◌, subst, inl, inr, false, Bool-cases, ltb, arith,
}
use open_air.Prelude.Int.{ℤ, pos, ◌≤ℤ◌}
use open_air.Prelude.Words.{sub64}
use open_air.Congestion.WindowedFilter.{
  WindowedFilter, max_filter, min_filter, reset, take_better, promote, refresh, age, is_reset,
  update, at_least,
}

-- What a comparator has to satisfy: `0 ≤ comparator a b` is a total preorder, and a value compares
-- as 0 with itself.
pub record IsComparator {ℓ} {V : Type ℓ} (comparator : V → V → ℤ) : Type ℓ where
  pub same_refl : (a : V) → comparator a a ≡ pos 0
  pub ge_trans :
      (a b c : V) → pos 0 ≤ℤ comparator a b → pos 0 ≤ℤ comparator b c → pos 0 ≤ℤ comparator a c
  pub ge_total : (a b : V) → (pos 0 ≤ℤ comparator a b) ⊎ (pos 0 ≤ℤ comparator b a)

pub max_filter-IsComparator : IsComparator max_filter
unfolding max_filter
max_filter-IsComparator = record {
  same_refl = λ a. ground arith;
  ge_trans = λ a b c h k. ground arith;
  ge_total = λ a b. ground arith;
}

pub min_filter-IsComparator : IsComparator min_filter
unfolding min_filter
min_filter-IsComparator = record {
  same_refl = λ a. ground arith;
  ge_trans = λ a b c h k. ground arith;
  ge_total = λ a b. ground arith;
}

module _ {ℓ} {V : Type ℓ} (comparator : V → V → ℤ) where
  abbrev Ge : V → V → Type 0
  Ge a b = pos 0 ≤ℤ comparator a b

  pub record IsOrdered (f : WindowedFilter V) : Type 0 where
    pub best_ge : pos 0 ≤ℤ comparator f.best.sample f.second.sample
    pub second_ge : pos 0 ≤ℤ comparator f.second.sample f.third.sample
    pub best_first : f.best.time ≤ f.second.time
    pub second_first : f.second.time ≤ f.third.time

module _ {ℓ} {V : Type ℓ} (comparator : V → V → ℤ) (zero_value : V)
    (law : IsComparator comparator) where
  take_better-IsOrdered :
      (f : WindowedFilter V) (s : V) (t : ℕ)
      → IsOrdered comparator f
      → at_least comparator zero_value s f.best.sample ≡ false
      → f.third.time ≤ t
      → IsOrdered comparator (take_better comparator zero_value f s t)
        × ((take_better comparator zero_value f s t).third.time ≤ t)
        × ((take_better comparator zero_value f s t).best ≡ f.best)
  unfolding take_better
  take_better-IsOrdered f s t o h late = ground (
    arith,
    law.same_refl s,
    law.ge_total s f.best.sample,
    law.ge_total s f.second.sample,
    law.ge_total s f.third.sample,
  )

  module _ (f : WindowedFilter V) (s : V) (t : ℕ) (o : IsOrdered comparator f)
      (late : f.third.time ≤ t) (small : t < 2 ^ 64) where
    -- With times that do not run backwards the subtraction of two of them does not wrap.
    no_wrap :
        (sub64 t f.best.time ≡ t - f.best.time)
        × (sub64 t f.second.time ≡ t - f.second.time)
        × (sub64 t f.third.time ≡ t - f.third.time)
    no_wrap = omega arith

    -- What ageing needs of the samples: the new one is no better than any estimate.
    module _ (w2 : pos 0 ≤ℤ comparator f.third.sample s)
        (fresh : ltb f.window_length (sub64 t f.third.time) ≡ false) where
      promote-IsOrdered :
          IsOrdered comparator (promote comparator zero_value f s t)
          × ((promote comparator zero_value f s t).third.time ≤ t)
          × (t - (promote comparator zero_value f s t).best.time ≤ f.window_length)
      unfolding promote
      promote-IsOrdered = ground (arith, no_wrap, law.same_refl s)

      refresh-IsOrdered :
          IsOrdered comparator (refresh comparator zero_value f s t)
          × ((refresh comparator zero_value f s t).third.time ≤ t)
          × ((refresh comparator zero_value f s t).best.time ≡ f.best.time)
      unfolding refresh
      refresh-IsOrdered = ground (
        arith,
        no_wrap,
        law.same_refl s,
        law.ge_trans f.second.sample f.third.sample s,
        law.ge_trans f.best.sample f.second.sample s,
      )

  take_better_below :
      (f : WindowedFilter V) (s : V) (t : ℕ)
      → IsOrdered comparator f
      → ltb f.window_length (sub64 t f.third.time) ≡ false
      → pos 0 ≤ℤ comparator (take_better comparator zero_value f s t).third.sample s
        × (ltb f.window_length (sub64 t (take_better comparator zero_value f s t).third.time)
            ≡ false)
        × ((take_better comparator zero_value f s t).window_length ≡ f.window_length)
  unfolding take_better
  take_better_below f s t o fresh = ground (arith, law.same_refl s, law.ge_total s f.third.sample)

  -- What holds of the filter after an update at time `t`, with a window of length `w`.
  abbrev pub Settled : ℕ → ℕ → WindowedFilter V → Type 0
  Settled w t g = IsOrdered comparator g × (g.third.time ≤ t) × (t - g.best.time ≤ w)

  age-Settled :
      (f : WindowedFilter V) (s : V) (t : ℕ)
      → IsOrdered comparator f
      → f.third.time ≤ t
      → t < 2 ^ 64
      → pos 0 ≤ℤ comparator f.third.sample s
      → ltb f.window_length (sub64 t f.third.time) ≡ false
      → Settled f.window_length t (age comparator zero_value f s t)
  unfolding age
  age-Settled f s t o late small below fresh =
      elim (Bool-cases (ltb f.window_length (sub64 t f.best.time))) [
        | inl old ↦ rw old (promote-IsOrdered f s t o late small below fresh)
        | inr young ↦
            let (a, b, c) = refresh-IsOrdered f s t o late small below fresh in
            rw young (a, b, ground (arith, no_wrap f s t o late small))
      ]

  reset-Settled : (f : WindowedFilter V) (s : V) (t : ℕ) → Settled f.window_length t (reset f s t)
  unfolding reset
  reset-Settled f s t = ground (arith, law.same_refl s)

  pub not_reset :
      (f : WindowedFilter V) (s : V) (t : ℕ)
      → is_reset comparator zero_value f s t ≡ false
      → (at_least comparator zero_value s f.best.sample ≡ false)
        × (ltb f.window_length (sub64 t f.third.time) ≡ false)
  unfolding is_reset
  not_reset f s t h = ground arith

  -- `Update`, given a time that does not run backwards, keeps the estimates in the order of their
  -- samples and of their times; and none of them is from after now or outside the window.
  pub update-IsOrdered :
      (f : WindowedFilter V) (s : V) (t : ℕ)
      → IsOrdered comparator f
      → f.third.time ≤ t
      → t < 2 ^ 64
      → IsOrdered comparator (update comparator zero_value f s t)
        × ((update comparator zero_value f s t).third.time ≤ t)
        × (t - (update comparator zero_value f s t).best.time ≤ f.window_length)
  unfolding update
  update-IsOrdered f s t o late small = elim (Bool-cases (is_reset comparator zero_value f s t)) [
    | inl again ↦ rw again (reset-Settled f s t)
    | inr kept ↦
        let (worse, fresh) = not_reset f s t kept in
        let (o', late', _) = take_better-IsOrdered f s t o worse late in
        let (below, fresh', same_window) = take_better_below f s t o fresh in
        rw kept (
          subst
            (λ w.
              Settled w t (age comparator zero_value (take_better comparator zero_value f s t) s t))
            same_window
            (age-Settled (take_better comparator zero_value f s t) s t o' late' small below
              (ground arith)))
  ]
