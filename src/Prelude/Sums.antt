-- ===== src/Prelude/Sums.antt =====
-- Sums of numbers that belong to the threads below a bound.
use go_wst.Prelude.Tests.{◌==◌, if◌then◌else◌}
use Prim.Native.Nat.{ℕ, zero, suc, ◌+◌, ◌*◌, ◌≤◌, ◌<◌}
use mathlib.Core.Path.{◌≡◌, refl}
use mathlib.Core.Logic.{◌≢◌}
use native.Mathlib.Omega.{arith}
use native.Mathlib.Decide.{ℕ_discrete}

unfoldable pub sum_below : ℕ → (ℕ → ℕ) → ℕ
sum_below zero f = 0
sum_below (suc n) f = sum_below n f + f n

pub sum_below-same :
    (n : ℕ) (f g : ℕ → ℕ) → ((j : ℕ) → j < n → g j ≡ f j) → sum_below n g ≡ sum_below n f
unfolding sum_below
sum_below-same zero f g h = refl
sum_below-same (suc n) f g h =
    omega (arith, h n (omega arith), sum_below-same n f g (λ j p. h j (omega arith)))

-- A change at one place changes the sum by as much.
pub sum_below-change :
    (n i : ℕ) (f g : ℕ → ℕ)
    → i < n
    → ((j : ℕ) → j ≢ i → g j ≡ f j)
    → sum_below n g + f i ≡ sum_below n f + g i
unfolding sum_below
sum_below-change zero i f g h same = absurd (omega arith)
sum_below-change (suc n) i f g h same = elim (ℕ_discrete n i) [
  | yes last ↦
      rw last (omega (arith, sum_below-same i f g (λ j p. same j (λ (e : j ≡ i). omega arith))))
  | no before ↦ omega (arith, same n before, sum_below-change n i f g (omega (arith, before)) same)
]

pub sum_below-bound : (n : ℕ) (f : ℕ → ℕ) (k : ℕ) → ((j : ℕ) → f j ≤ k) → sum_below n f ≤ n * k
unfolding sum_below
sum_below-bound zero f k h = omega arith
sum_below-bound (suc n) f k h = omega (arith, h n, sum_below-bound n f k h)

pub sum_below-zero : (n : ℕ) (f : ℕ → ℕ) → ((j : ℕ) → j < n → f j ≡ 0) → sum_below n f ≡ 0
unfolding sum_below
sum_below-zero zero f h = refl
sum_below-zero (suc n) f h =
    omega (arith, h n (omega arith), sum_below-zero n f (λ j p. h j (omega arith)))

-- A family with one value replaced.
abbrev pub put : ℕ → ℕ → (ℕ → ℕ) → ℕ → ℕ
put a c f j = if j == c then a else f j

put_self : (a c : ℕ) (f : ℕ → ℕ) → put a c f c ≡ a
put_self a c f = ground arith

put-other : (a c : ℕ) (f : ℕ → ℕ) (j : ℕ) → j ≢ c → put a c f j ≡ f j
put-other a c f j h = ground arith

pub sum_below-put :
    (n c a : ℕ) (f : ℕ → ℕ) → c < n → sum_below n (put a c f) + f c ≡ sum_below n f + a
sum_below-put n c a f h =
    omega (arith, sum_below-change n c f (put a c f) h (put-other a c f), put_self a c f)

pub put_le : (a c : ℕ) (f : ℕ → ℕ) → ((j : ℕ) → f j ≤ a) → (j : ℕ) → put a c f j ≤ a
put_le a c f h j = ground (arith, h j)
