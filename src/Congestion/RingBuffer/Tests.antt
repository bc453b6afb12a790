-- ===== src/Congestion/RingBuffer/Tests.antt =====
-- Runs of the ring, and its theorems at concrete rings.
use open_air.Prelude.{
  ℕ, ◌≡◌, refl, ◌<◌, ◌≤◌, ◌⊎◌, inr, [], ◌∷◌, none, some, true, false, get_or, arith,
}
use open_air.Congestion.RingBuffer.{
  RingBuffer, len, is_empty, offset, init, grow, push_back, pop_front,
}
use open_air.Congestion.RingBuffer.Contents.{IsValid, contents}
use open_air.Congestion.RingBuffer.Push.{Pushes, push_back-Pushes}
use open_air.Congestion.RingBuffer.Pop.{pop_front_lem}
use open_air.Congestion.RingBuffer.Access.{offset_lem, init_lem}

-- 5, 6, 7 from place 1 on, in a ring with no room.
abbrev full_ring : RingBuffer ℕ
full_ring = record { ring = 7 ∷ 5 ∷ 6 ∷ []; head_pos = 1; tail_pos = 1; full = true }

full_ring-IsValid : IsValid full_ring
full_ring-IsValid = record { in_range = inr (omega arith, omega arith); full_meets = λ _. refl }

contents-full_ring : contents 0 full_ring ≡ 5 ∷ 6 ∷ 7 ∷ []
unfolding len
contents-full_ring = refl

push_grows :
    push_back 0 full_ring 8
    ≡ some (record { ring = 5 ∷ 6 ∷ 7 ∷ 8 ∷ 0 ∷ 0 ∷ []; head_pos = 0; tail_pos = 4; full = false })
unfolding push_back grow
push_grows = refl

pop_clears :
    pop_front 0 full_ring
    ≡ some (5, record { ring = 7 ∷ 0 ∷ 6 ∷ []; head_pos = 2; tail_pos = 1; full = false })
unfolding pop_front is_empty
pop_clears = refl

push_back-Pushes_example : Pushes 0 full_ring 8 (push_back 0 full_ring 8)
push_back-Pushes_example = push_back-Pushes 0 full_ring 8 full_ring-IsValid

popped :
    ((contents 0 full_ring ≡ []) × (pop_front 0 full_ring ≡ none))
    ⊎ ((a : ℕ) × (r' : RingBuffer ℕ) × (contents 0 full_ring ≡ a ∷ contents 0 r')
        × (pop_front 0 full_ring ≡ some (a, r'))
        × IsValid r')
popped = pop_front_lem 0 full_ring full_ring-IsValid

third_place :
    ((3 ≤ 2) × (offset full_ring 2 ≡ none))
    ⊎ ((2 < 3)
        × ((p : ℕ) × (offset full_ring 2 ≡ some p)
            × (p < 3)
            × (get_or (7 ∷ 5 ∷ 6 ∷ []) p 0 ≡ get_or (contents 0 full_ring) 2 0)))
unfolding len
third_place = (offset_lem 0 full_ring 2 full_ring-IsValid).0

four_places : IsValid {A = ℕ} (init 0 4) × (contents {A = ℕ} 0 (init 0 4) ≡ [])
four_places = init_lem 0 4
