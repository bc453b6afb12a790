-- ===== src/Congestion/RingBuffer/Contents.antt =====
-- What a ring holds, oldest first, and when its positions make sense.
use open_air.Prelude.{
  ℕ, zero, suc, ◌+◌, ◌-◌, ◌<◌, ◌≡◌, refl, ap, ◌⊎◌, true, false, List, [], ◌∷◌, ◌++◌, ltb,
  if◌then◌else◌, length, get_or, arith,
}
use open_air.Congestion.RingBuffer.{RingBuffer, len}

-- `f 0 ∷ f 1 ∷ …`, `n` of them.
abbrev pub tabulate {ℓ} : {A : Type ℓ} → (ℕ → A) → ℕ → List A
tabulate f zero = []
tabulate f (suc n) = f 0 ∷ tabulate (λ i. f (suc i)) n

module _ {ℓ} {A : Type ℓ} where
  pub length-tabulate : (f : ℕ → A) (n : ℕ) → length (tabulate f n) ≡ n
  length-tabulate f zero = refl
  length-tabulate f (suc n) = ap suc (length-tabulate (λ i. f (suc i)) n)

  pub tabulate_ext :
      (f g : ℕ → A) (n : ℕ) → ((i : ℕ) → i < n → f i ≡ g i) → tabulate f n ≡ tabulate g n
  tabulate_ext f g zero h = refl
  tabulate_ext f g (suc n) h =
      let rest =
        tabulate_ext (λ i. f (suc i)) (λ i. g (suc i)) n (λ i p. h (suc i) (omega arith)) in
      let first = h 0 (omega arith) in λ i. first i ∷ rest i

  pub tabulate_snoc : (f : ℕ → A) (n : ℕ) → tabulate f (suc n) ≡ tabulate f n ++ (f n ∷ [])
  tabulate_snoc f zero = refl
  tabulate_snoc f (suc n) = ap (◌∷◌ (f 0)) (tabulate_snoc (λ i. f (suc i)) n)

  pub get_or-tabulate : (f : ℕ → A) (n i : ℕ) (d : A) → i < n → get_or (tabulate f n) i d ≡ f i
  get_or-tabulate f zero i d h = absurd (omega arith)
  get_or-tabulate f (suc n) zero d h = refl
  get_or-tabulate f (suc n) (suc i) d h = get_or-tabulate (λ i. f (suc i)) n i d (omega arith)

-- The position `i` places behind `head` in a ring of `cap` places.
abbrev pub place : ℕ → ℕ → ℕ → ℕ
place cap head i = if ltb (head + i) cap then head + i else head + i - cap

module _ {ℓ} {A : Type ℓ} where
  abbrev pub contents : A → RingBuffer A → List A
  contents z r = tabulate (λ i. get_or r.ring (place (length r.ring) r.head_pos i) z) (len r)

  -- The positions are within the ring, and a full ring ends where it begins. Only the ring of no
  -- places has nowhere to point.
  pub record IsValid (r : RingBuffer A) : Type ℓ where
    pub in_range :
        ((length r.ring ≡ 0) × (r.head_pos ≡ 0) × (r.tail_pos ≡ 0) × (r.full ≡ false))
        ⊎ ((r.head_pos < length r.ring) × (r.tail_pos < length r.ring))
    pub full_meets : r.full ≡ true → r.head_pos ≡ r.tail_pos
