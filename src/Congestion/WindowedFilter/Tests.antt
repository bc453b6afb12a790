-- ===== src/Congestion/WindowedFilter/Tests.antt =====
-- Runs of the filter, and its theorems at concrete samples.
use open_air.Prelude.{ℕ, ◌-◌, ◌≡◌, refl, ◌≤◌, [], ◌∷◌, arith}
use open_air.Congestion.WindowedFilter.{Entry, WindowedFilter, max_filter, update}
use open_air.Congestion.WindowedFilter.Order.{
  IsOrdered, Settled, max_filter-IsComparator, update-IsOrdered,
}
use open_air.Congestion.WindowedFilter.History.{History, Dominates, BestKept, feed, feed-best}

abbrev entry : ℕ → ℕ → Entry ℕ
entry s t = record { sample = s; time = t }

-- A maximum filter over ten rounds.
abbrev falling : WindowedFilter ℕ
falling = record { window_length = 10; best = entry 9 1; second = entry 7 5; third = entry 4 8 }

-- The best estimate, eleven rounds old, gives way to the second.
update_expires :
    update max_filter 0 falling 2 12
    ≡ record falling { best = entry 7 5; second = entry 4 8; third = entry 2 12 }
unfolding update max_filter
update_expires = refl

update_new_best :
    update max_filter 0 falling 9 9
    ≡ record falling { best = entry 9 9; second = entry 9 9; third = entry 9 9 }
unfolding update max_filter
update_new_best = refl

falling-IsOrdered : IsOrdered max_filter falling
unfolding max_filter
falling-IsOrdered = omega arith

update_isordered_test :
    Settled max_filter 0 max_filter-IsComparator 10 12 (update max_filter 0 falling 2 12)
update_isordered_test =
    update-IsOrdered max_filter 0 max_filter-IsComparator falling 2 12 falling-IsOrdered
      (omega arith) (omega arith)

abbrev samples : History ℕ
samples = (6, 9) ∷ (8, 3) ∷ (5, 1) ∷ []

feed-best_example :
    (9 - (feed max_filter 0 4 samples).best.time ≤ 4)
    × ((feed max_filter 0 4 samples).best.time ≤ 9)
    × Dominates max_filter (feed max_filter 0 4 samples).best samples
    × BestKept max_filter 0 max_filter-IsComparator 4
        (feed max_filter 0 4 ((8, 3) ∷ (5, 1) ∷ [])).best
        6
        9
        (feed max_filter 0 4 samples).best
feed-best_example =
    feed-best max_filter 0 max_filter-IsComparator 4 6 9 ((8, 3) ∷ (5, 1) ∷ []) (omega arith)
