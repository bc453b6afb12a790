-- ===== src/Congestion/WindowedFilter.antt =====
-- internal/congestion/bbr/windowed_filter.go, with times of type `roundTripCount`, a uint64. The
-- comparator is the filter's field in the source, and a parameter here, as is the zero value of a
-- sample.
pub mod Order
pub mod History
mod Tests
use open_air.Prelude.{ℕ, ◌+◌, ◌-◌, ◌/◌, ◌%◌, ◌^◌, Bool, ◌&&◌, ◌||◌, ltb, if◌then◌else◌}
use open_air.Prelude.Int.{ℤ, pos, negsuc, eqb_ℤ, leb_ℤ}
use open_air.Prelude.Words.{sub64}

pub record Entry {ℓ} (V : Type ℓ) : Type ℓ where
  pub sample : V
  pub time : ℕ

-- `estimates[0]`, `[1]` and `[2]`.
pub record WindowedFilter {ℓ} (V : Type ℓ) : Type ℓ where
  pub window_length : ℕ
  pub best : Entry V
  pub second : Entry V
  pub third : Entry V

unfoldable pub max_filter : ℕ → ℕ → ℤ
max_filter a b = if ltb b a then pos 1 else if ltb a b then negsuc 0 else pos 0

unfoldable pub min_filter : ℕ → ℕ → ℤ
min_filter a b = if ltb a b then pos 1 else if ltb b a then negsuc 0 else pos 0

module _ {ℓ} {V : Type ℓ} (zero_value : V) where
  -- `make([]entry, 3)`
  abbrev pub blank : Entry V
  blank = record { sample = zero_value; time = 0 }

  unfoldable pub new_windowed_filter : ℕ → WindowedFilter V
  new_windowed_filter n = record { window_length = n; best = blank; second = blank; third = blank }

  unfoldable pub clear : WindowedFilter V → WindowedFilter V
  clear f = record f { best = blank; second = blank; third = blank }

module _ {ℓ} {V : Type ℓ} where
  pub set_window_length : WindowedFilter V → ℕ → WindowedFilter V
  set_window_length f n = record f { window_length = n }

  abbrev pub get_best : WindowedFilter V → V
  get_best f = f.best.sample

  abbrev pub get_second_best : WindowedFilter V → V
  get_second_best f = f.second.sample

  abbrev pub get_third_best : WindowedFilter V → V
  get_third_best f = f.third.sample

  unfoldable pub reset : WindowedFilter V → V → ℕ → WindowedFilter V
  reset f s t =
      let e : Entry V = record { sample = s; time = t } in
      record f { best = e; second = e; third = e }

module _ {ℓ} {V : Type ℓ} (comparator : V → V → ℤ) (zero_value : V) where
  abbrev pub at_least : V → V → Bool
  at_least a b = leb_ℤ (pos 0) (comparator a b)

  abbrev pub same : V → V → Bool
  same a b = eqb_ℤ (comparator a b) (pos 0)

  -- The new sample takes the place of the second and third estimates, or of the third.
  pub take_better : WindowedFilter V → V → ℕ → WindowedFilter V
  take_better f s t =
      let e : Entry V = record { sample = s; time = t } in
      if at_least s f.second.sample
      then record f { second = e; third = e }
      else if at_least s f.third.sample
      then record f { third = e }
      else f

  -- The best estimate is too old: the others move up, once or twice.
  pub promote : WindowedFilter V → V → ℕ → WindowedFilter V
  promote f s t =
      let e : Entry V = record { sample = s; time = t } in
      let f' = record f { best = f.second; second = f.third; third = e } in
      if ltb f.window_length (sub64 t f'.best.time)
      then record f' { best = f'.second; second = f'.third }
      else f'

  -- The second estimate comes from the second quarter of the window, the third from its second half.
  pub refresh : WindowedFilter V → V → ℕ → WindowedFilter V
  refresh f s t =
      let e : Entry V = record { sample = s; time = t } in
      if same f.second.sample f.best.sample && ltb (f.window_length / 4) (sub64 t f.second.time)
      then record f { second = e; third = e }
      else if same f.third.sample f.second.sample
          && ltb (f.window_length / 2) (sub64 t f.third.time)
      then record f { third = e }
      else f

  pub age : WindowedFilter V → V → ℕ → WindowedFilter V
  unfolding promote refresh
  age f s t = if ltb f.window_length (sub64 t f.best.time) then promote f s t else refresh f s t

  pub is_reset : WindowedFilter V → V → ℕ → Bool
  is_reset f s t =
      same f.best.sample zero_value
      || at_least s f.best.sample
      || ltb f.window_length (sub64 t f.third.time)

  unfoldable pub update : WindowedFilter V → V → ℕ → WindowedFilter V
  unfolding take_better age is_reset reset
  update f s t = if is_reset f s t then reset f s t else age (take_better f s t) s t
