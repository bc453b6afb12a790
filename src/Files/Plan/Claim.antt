-- ===== src/Files/Plan/Claim.antt =====
-- `Claim`: each worker takes the next chunk that the receiver does not have yet.
use open_air.Prelude.{
  ℕ, zero, suc, ◌+◌, ◌-◌, ◌^◌, ◌≤◌, ◌<◌, ◌≡◌, refl, sym, subst, ◌∙◌, ◌⊎◌, inl, inr, Option, none,
  true, false, Bool-cases, dec_lt, ℕ_discrete, leb, if◌then◌else◌, arith,
}
use open_air.Prelude.Words.{add64}
use open_air.Files.Plan.{Plan, Chunk, chunk, chunk_from, chunk_in, skipped, claim_loop, claim}

-- The plan once its counter stands at `n`.
abbrev pub at_next : Plan → ℕ → Plan
at_next p n = record p { next = n }

-- The first chunk at or behind `from` that is not skipped, or that there is none.
abbrev pub FirstFree : Plan → ℕ → (Plan × Option Chunk) → Type 0
FirstFree p from r =
    (((j : ℕ) → from ≤ j → j < p.count → skipped p j ≡ true)
      × (r ≡ (at_next p (p.count + 1), none)))
    ⊎ ((i : ℕ) × (from ≤ i)
        × (i < p.count)
        × (skipped p i ≡ false)
        × ((j : ℕ) → from ≤ j → j < i → skipped p j ≡ true)
        × (r ≡ (at_next p (i + 1), chunk p i)))

chunk-at_next : (p : Plan) (n i : ℕ) → chunk (at_next p n) i ≡ chunk p i
unfolding chunk chunk_from chunk_in
chunk-at_next p n i = refl

-- One round, written out.
claim_round :
    (fuel : ℕ) (p : Plan) (from : ℕ)
    → from < 2 ^ 64 - 1
    → claim_loop (suc fuel) (at_next p from) ≡ (
        if leb p.count from
        then (at_next p (from + 1), none)
        else if skipped p from
        then claim_loop fuel (at_next p (from + 1))
        else (at_next p (from + 1), chunk p from))
unfolding claim_loop
claim_round fuel p from small =
    let e : add64 from 1 ≡ from + 1 = omega arith in rw (e, chunk-at_next p from from) refl

module _ (p : Plan) (from : ℕ) (s : skipped p from ≡ true) where
  skipped_from :
      (i : ℕ)
      → ((j : ℕ) → from + 1 ≤ j → j < i → skipped p j ≡ true)
      → (j : ℕ) → from ≤ j
      → j < i
      → skipped p j ≡ true
  skipped_from i f j a b = elim (ℕ_discrete j from) [ yes e ↦ rw e s | no ne ↦ f j (omega arith) b ]

  -- A skipped chunk changes nothing.
  further : {r : Plan × Option Chunk} → FirstFree p (from + 1) r → FirstFree p from r
  further (inl (f, e)) = inl (skipped_from p.count f, e)
  further (inr (i, le, lt, free, f, e)) = inr (i, omega arith, lt, free, skipped_from i f, e)

claim_loop-FirstFree :
    (fuel : ℕ) (p : Plan) (from : ℕ)
    → p.count < 2 ^ 64 - 1
    → from ≤ p.count
    → p.count < from + fuel
    → FirstFree p from (claim_loop fuel (at_next p from))
claim_loop-FirstFree zero p from small le enough = absurd (omega arith)
claim_loop-FirstFree (suc fuel) p from small le enough =
    let round = claim_round fuel p from (omega arith) in
    elim (dec_lt from p.count) [
      | no q ↦
          let e : from ≡ p.count = omega arith in
          inl (λ j a b. absurd (omega arith), round ∙ rw e (ground arith))
      | yes q ↦
          let open' : leb p.count from ≡ false = ground arith in
          elim (Bool-cases (skipped p from)) [
            | inl s ↦ further p from s (
                subst (FirstFree p (from + 1)) (sym (round ∙ rw (open', s) refl))
                  (claim_loop-FirstFree fuel p (from + 1) small (omega arith) (omega arith)))
            | inr s ↦
                inr (
                  from,
                  omega arith,
                  q,
                  s,
                  λ j a b. absurd (omega arith),
                  round ∙ rw (open', s) refl,
                )
          ]
    ]

-- On a plan whose count is below the largest uint64, with a counter at most the count, `Claim` returns the first chunk at or behind the counter that is not skipped, and puts the counter
-- behind it. If all of them are skipped it returns none, and the counter stands behind the last chunk.
pub claim-FirstFree :
    (p : Plan) → p.count < 2 ^ 64 - 1 → p.next ≤ p.count → FirstFree p p.next (claim p)
unfolding claim
claim-FirstFree p small le =
    claim_loop-FirstFree (p.count - p.next + 1) p p.next small le (omega arith)
