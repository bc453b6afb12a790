-- ===== src/Prelude/Search.antt =====
-- Go's `sort.Search`: the binary search for the first index at which a predicate holds.
use Prim.Native.Nat.{ℕ, zero, suc, ◌+◌, ◌-◌, ◌/◌, ◌≤◌, ◌<◌}
use mathlib.Core.Path.{◌≡◌}
use mathlib.Core.Bool.{Bool, true, false}
use native.Mathlib.Omega.{arith}
use open_air.Prelude.Tests.{ltb, if◌then◌else◌}

search_loop : ℕ → ℕ → ℕ → (ℕ → Bool) → ℕ
search_loop zero i j f = i
search_loop (suc fuel) i j f =
    let h = (i + j) / 2 in
    let upper = search_loop fuel (h + 1) j f in
    let lower = search_loop fuel i h f in if ltb i j then if f h then lower else upper else i

-- Each round makes the range smaller, so `n` rounds are enough.
unfoldable pub search : ℕ → (ℕ → Bool) → ℕ
unfolding search_loop
search n f = search_loop n 0 n f

search_loop-eq :
    (fuel i j : ℕ) (f : ℕ → Bool) (m : ℕ)
    → j - i ≤ fuel
    → i ≤ m
    → m ≤ j
    → ((k : ℕ) → k < m → f k ≡ false)
    → ((k : ℕ) → m ≤ k → k < j → f k ≡ true)
    → search_loop fuel i j f ≡ m
unfolding search_loop
search_loop-eq zero i j f m enough lo hi below above = omega arith
search_loop-eq (suc fuel) i j f m enough lo hi below above = ground (
  arith,
  below ((i + j) / 2),
  above ((i + j) / 2),
  search_loop-eq fuel i ((i + j) / 2) f m,
  search_loop-eq fuel ((i + j) / 2 + 1) j f m,
)

-- Where the predicate fails below `m` and holds from `m` on, the search finds `m`.
pub search-eq :
    (n : ℕ) (f : ℕ → Bool) (m : ℕ)
    → m ≤ n
    → ((k : ℕ) → k < m → f k ≡ false)
    → ((k : ℕ) → m ≤ k → k < n → f k ≡ true)
    → search n f ≡ m
unfolding search
search-eq n f m le below above = search_loop-eq n 0 n f m (omega arith) (omega arith) le below above
