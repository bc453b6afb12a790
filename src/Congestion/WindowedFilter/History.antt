-- ===== src/Congestion/WindowedFilter/History.antt =====
-- The filter against the samples that it was given: no sample that came in after an estimate beats
-- that estimate.
use open_air.Prelude.{
  ℕ, ◌^◌, ◌≤◌, ◌<◌, ◌≡◌, refl, sym, ap, ◌∙◌, subst, ◌-◌, ◌/◌, ◌&&◌, ◌⊎◌, inl, inr, true, false,
  Bool-cases, List, [], ◌∷◌, ltb, All, arith,
}
use open_air.Prelude.Int.{ℤ, pos, ◌≤ℤ◌}
use open_air.Congestion.WindowedFilter.{
  Entry, WindowedFilter, new_windowed_filter, reset, take_better, promote, refresh, age, is_reset,
  update, at_least, same,
}
use open_air.Prelude.Words.{sub64}
use open_air.Congestion.WindowedFilter.Order.{IsComparator, IsOrdered, update-IsOrdered, not_reset}

-- Samples with their times, newest first.
abbrev pub History {ℓ} : Type ℓ → Type ℓ
History V = List (V × ℕ)

module _ {ℓ} {V : Type ℓ} (comparator : V → V → ℤ) where
  abbrev pub Dominates : Entry V → History V → Type 0
  Dominates e h = All (λ x. (x.1 ≤ e.time) ⊎ (pos 0 ≤ℤ comparator e.sample x.0)) h

  abbrev pub Until : ℕ → History V → Type 0
  Until now h = All (λ x. x.1 ≤ now) h

  pub record Tracks (f : WindowedFilter V) (h : History V) (now : ℕ) : Type 0 where
    pub ordered : IsOrdered comparator f
    pub third_until : f.third.time ≤ now
    pub until : Until now h
    pub best_dominates : Dominates f.best h
    pub second_dominates : Dominates f.second h
    pub third_dominates : Dominates f.third h

  Until-Dominates :
      (e : Entry V) (now : ℕ) (h : History V) → now ≤ e.time → Until now h → Dominates e h
  Until-Dominates e now [] late u = tt
  Until-Dominates e now (x ∷ h) late u = (inl (omega arith), Until-Dominates e now h late u.1)

  Until-mono : (a b : ℕ) (h : History V) → a ≤ b → Until a h → Until b h
  Until-mono a b [] le u = tt
  Until-mono a b (x ∷ h) le u = (omega arith, Until-mono a b h le u.1)

-- The steps of `Update` only move entries about: what holds of the estimates and the new entry holds
-- of the estimates after it.
module _ {ℓ κ} {V : Type ℓ} (comparator : V → V → ℤ) (zero_value : V) (P : Entry V → Type κ) where
  abbrev Each : WindowedFilter V → Type κ
  Each f = P f.best × P f.second × P f.third

  module _ (f : WindowedFilter V) (s : V) (t : ℕ) (new : P (record { sample = s; time = t })) where
    promote-Each : Each f → Each (promote comparator zero_value f s t)
    unfolding promote
    promote-Each h = ground arith

    refresh-Each : Each f → Each (refresh comparator zero_value f s t)
    unfolding refresh
    refresh-Each h = ground arith

    reset-Each : Each (reset f s t)
    unfolding reset
    reset-Each = (new, new, new)

    age-Each : Each f → Each (age comparator zero_value f s t)
    unfolding age
    age-Each h = ground (arith, promote-Each h, refresh-Each h)

module _ {ℓ} {V : Type ℓ} (comparator : V → V → ℤ) (zero_value : V) where
  -- The filter after all samples of a history, the oldest first.
  pub feed : ℕ → History V → WindowedFilter V
  feed w [] = new_windowed_filter zero_value w
  feed w ((s, t) ∷ h) = update comparator zero_value (feed w h) s t

  -- Times do not run backwards, and are uint64s.
  abbrev pub InOrder : History V → Type 0
  InOrder [] = Unit {0}
  InOrder ((s, t) ∷ h) = Until comparator t h × (t < 2 ^ 64) × InOrder h

  last_time : History V → ℕ
  last_time [] = 0
  last_time ((s, t) ∷ h) = t

module _ {ℓ} {V : Type ℓ} (comparator : V → V → ℤ) (zero_value : V)
    (law : IsComparator comparator) where
  update_again :
      (f : WindowedFilter V) (s : V) (t : ℕ)
      → is_reset comparator zero_value f s t ≡ true
      → update comparator zero_value f s t ≡ reset f s t
  unfolding update
  update_again f s t e = rw e

  update_kept :
      (f : WindowedFilter V) (s : V) (t : ℕ)
      → is_reset comparator zero_value f s t ≡ false
      → update comparator zero_value f s t
        ≡ age comparator zero_value (take_better comparator zero_value f s t) s t
  unfolding update
  update_kept f s t e = rw e

  take_better-best :
      (f : WindowedFilter V) (s : V) (t : ℕ)
      → (take_better comparator zero_value f s t).best ≡ f.best
  unfolding take_better
  take_better-best f s t = elim (Bool-cases (at_least comparator zero_value s f.second.sample)) [
    | inl a ↦ rw (take_better, a) refl
    | inr a ↦ elim (Bool-cases (at_least comparator zero_value s f.third.sample)) [
      | inl b ↦ rw (take_better, a, b) refl
      | inr b ↦ rw (take_better, a, b) refl
    ]
  ]

  take_better-window :
      (f : WindowedFilter V) (s : V) (t : ℕ)
      → (take_better comparator zero_value f s t).window_length ≡ f.window_length
  unfolding take_better
  take_better-window f s t = elim (Bool-cases (at_least comparator zero_value s f.second.sample)) [
    | inl a ↦ rw (take_better, a) refl
    | inr a ↦ elim (Bool-cases (at_least comparator zero_value s f.third.sample)) [
      | inl b ↦ rw (take_better, a, b) refl
      | inr b ↦ rw (take_better, a, b) refl
    ]
  ]

  age-best :
      (f : WindowedFilter V) (s : V) (t : ℕ)
      → ltb f.window_length (sub64 t f.best.time) ≡ false
      → (age comparator zero_value f s t).best ≡ f.best
  unfolding age refresh
  age-best f s t young =
      let second_old =
        same comparator zero_value f.second.sample f.best.sample
        && ltb (f.window_length / 4) (sub64 t f.second.time) in
      let third_old =
        same comparator zero_value f.third.sample f.second.sample
        && ltb (f.window_length / 2) (sub64 t f.third.time) in
      elim (Bool-cases second_old) [
        | inl a ↦ rw (age, young, refresh, a) refl
        | inr a ↦ elim (Bool-cases third_old) [
          | inl b ↦ rw (age, young, refresh, a, b) refl
          | inr b ↦ rw (age, young, refresh, a, b) refl
        ]
      ]

  -- What an update does to the best estimate.
  abbrev pub BestKept : ℕ → Entry V → V → ℕ → Entry V → Type ℓ
  BestKept w best s t after =
      (after ≡ best)
      ⊎ (w < t - best.time)
      ⊎ ((after ≡ record { sample = s; time = t })
          × ((same comparator zero_value best.sample zero_value ≡ true)
              ⊎ (at_least comparator zero_value s best.sample ≡ true)))

  update-BestKept :
      (f : WindowedFilter V) (s : V) (t : ℕ)
      → f.best.time ≤ f.third.time
      → f.third.time ≤ t
      → t < 2 ^ 64
      → BestKept f.window_length f.best s t (update comparator zero_value f s t).best
  unfolding update is_reset reset
  update-BestKept f s t first late small =
      let old = ltb f.window_length (sub64 t f.best.time) in
      let stale = ltb f.window_length (sub64 t f.third.time) in
      elim (Bool-cases old) [
        | inl expired ↦ inr (inl (ground (arith, expired)))
        | inr young ↦
            let fresh : stale ≡ false = ground (arith, young) in
            elim (Bool-cases (same comparator zero_value f.best.sample zero_value)) [
              | inl blank ↦ inr (inr (rw (update, blank) refl, inl blank))
              | inr set ↦ elim (Bool-cases (at_least comparator zero_value s f.best.sample)) [
                | inl beaten ↦ inr (inr (rw (update, set, beaten) refl, inr beaten))
                | inr worse ↦
                    let kept : is_reset comparator zero_value f s t ≡ false =
                      rw (is_reset, set, worse, fresh) refl in
                    inl (
                      ap (λ g. g.best) (update_kept f s t kept)
                      ∙ age-best (take_better comparator zero_value f s t) s t
                          (rw (take_better-window f s t, take_better-best f s t) young)
                      ∙ take_better-best f s t)
              ]
            ]
      ]

  module _ (f : WindowedFilter V) (s : V) (t now : ℕ) (h : History V)
      (k : Tracks comparator f h now) (later : now ≤ t) where
    abbrev Unbeaten : Entry V → Type 0
    Unbeaten e = Dominates comparator e ((s, t) ∷ h)

    new-Dominates : Dominates comparator (record { sample = s; time = t }) ((s, t) ∷ h)
    new-Dominates = (inl (omega arith), Until-Dominates comparator _ now h later k.until)

    -- Where the filter is not reset, the estimates that stay are no worse than the new sample.
    take_better-Each :
        at_least comparator zero_value s f.best.sample ≡ false
        → Each comparator zero_value Unbeaten (take_better comparator zero_value f s t)
    unfolding take_better
    take_better-Each worse = ground (
      arith,
      k.best_dominates,
      k.second_dominates,
      k.third_dominates,
      new-Dominates,
      law.ge_total s f.best.sample,
      law.ge_total s f.second.sample,
      law.ge_total s f.third.sample,
    )

    -- So it is with the whole of `Update`.
    update-Each : Each comparator zero_value Unbeaten (update comparator zero_value f s t)
    update-Each = elim (Bool-cases (is_reset comparator zero_value f s t)) [
      | inl again ↦
          subst (Each comparator zero_value Unbeaten) (sym (update_again f s t again))
            (reset-Each comparator zero_value Unbeaten f s t new-Dominates)
      | inr kept ↦ subst (Each comparator zero_value Unbeaten) (sym (update_kept f s t kept)) (
          age-Each comparator zero_value Unbeaten (take_better comparator zero_value f s t) s t
            new-Dominates (take_better-Each (not_reset comparator zero_value law f s t kept).0))
    ]

    update-Tracks :
        t < 2 ^ 64 → Tracks comparator (update comparator zero_value f s t) ((s, t) ∷ h) t
    update-Tracks small =
        let (o, late, _) =
          update-IsOrdered comparator zero_value law f s t k.ordered (omega arith) small in
        let (b, se, th) = update-Each in
        record {
          ordered = o;
          third_until = late;
          until = (omega arith, Until-mono comparator now t h later k.until);
          best_dominates = b;
          second_dominates = se;
          third_dominates = th;
        }

  last_time-le :
      (t : ℕ) (h : History V) → Until comparator t h → last_time comparator zero_value h ≤ t
  unfolding last_time
  last_time-le t [] u = omega arith
  last_time-le t (x ∷ h) u = u.0

  feed-Tracks :
      (w : ℕ) (h : History V)
      → InOrder comparator zero_value h
      → Tracks comparator (feed comparator zero_value w h) h (last_time comparator zero_value h)
  unfolding feed last_time new_windowed_filter
  feed-Tracks w [] o = ground (arith, law.same_refl zero_value)
  feed-Tracks w ((s, t) ∷ h) o =
      update-Tracks (feed comparator zero_value w h) s t (last_time comparator zero_value h) h
        (feed-Tracks w h o.2) (last_time-le t h o.0) o.1

  window_length-update :
      (f : WindowedFilter V) (s : V) (t : ℕ)
      → (update comparator zero_value f s t).window_length ≡ f.window_length
  unfolding update
  window_length-update f s t = ground arith

  window_length-feed : (w : ℕ) (h : History V) → (feed comparator zero_value w h).window_length ≡ w
  unfolding feed new_windowed_filter
  window_length-feed w [] = refl
  window_length-feed w ((s, t) ∷ h) =
      window_length-update (feed comparator zero_value w h) s t ∙ window_length-feed w h

  -- After any samples, in the order of their times and of uint64 times, with a comparator that is a
  -- total preorder: the best estimate is from within the window, no sample that came in after it
  -- compares higher, and it is the one that was best before the last sample, unless that one was
  -- older than the window, or the last sample took its place, as one that compares no lower or for a
  -- best that compares as the zero value.
  pub feed-best :
      (w : ℕ) (s : V) (t : ℕ) (h : History V)
      → InOrder comparator zero_value ((s, t) ∷ h)
      → (t - (feed comparator zero_value w ((s, t) ∷ h)).best.time ≤ w)
        × ((feed comparator zero_value w ((s, t) ∷ h)).best.time ≤ t)
        × Dominates comparator (feed comparator zero_value w ((s, t) ∷ h)).best ((s, t) ∷ h)
        × BestKept w
            (feed comparator zero_value w h).best
            s
            t
            (feed comparator zero_value w ((s, t) ∷ h)).best
  feed-best w s t h o =
      let before = feed-Tracks w h o.2 in
      let after = feed-Tracks w ((s, t) ∷ h) o in
      let fits =
        update-IsOrdered comparator zero_value law (feed comparator zero_value w h) s t
          before.ordered (late before.third_until) o.1 in
      let kept =
        update-BestKept (feed comparator zero_value w h) s t (omega (arith, before.ordered))
          (late before.third_until) o.1 in
      (
        unfold feed in (rw window_length-feed at fits).2,
        unfold last_time in omega (arith, after.third_until, after.ordered),
        after.best_dominates,
        unfold feed in (rw window_length-feed at kept),
      )
    where
      late :
          (feed comparator zero_value w h).third.time ≤ last_time comparator zero_value h
          → (feed comparator zero_value w h).third.time ≤ t
      late e = omega (arith, last_time-le t h o.0)
