-- ===== src/Prelude/Bits.antt =====
-- The binary digits of a number, lowest first, and the digits of a shift and of an or.
use Prim.Native.Nat.{
  ℕ, zero, suc, ◌+◌, ◌*◌, ◌/◌, ◌%◌, ◌^◌, ◌≤◌, ◌<◌, max, min, bit_or, bit_and, digits, bitwise,
  bit_or-bitwise, bit_and-bitwise,
}
use mathlib.Core.Path.{◌≡◌, refl, sym, ap, ◌∙◌}
use native.Mathlib.Omega.{arith}
use native.Mathlib.Nat.{
  pow-succ', add-zero, add-suc, div-one, div-div-eq-div-mul, mul-add-mod_self_left, mod-eq_of_lt,
  mod-lt, div-add-mod, one-le-pow, mod-one,
}
use native.Mathlib.Decide.{dec_lt}

unfoldable pub bit : ℕ → ℕ → ℕ
bit zero x = x % 2
bit (suc i) x = bit i (x / 2)

-- The native operations mean `digits`, a recursion that is given fuel: the number itself. Any fuel
-- that is not below the number gives the same result, so the number can be taken by halves.
module _ (rest : ℕ → ℕ) (join : ℕ → ℕ → ℕ) where
  fueled_zero : (n b : ℕ) → digits rest join n zero b ≡ bitwise rest join zero b
  fueled_zero zero b = refl
  fueled_zero (suc n) b = refl

  fueled : (bound n a b : ℕ) → n ≤ bound → a ≤ n → digits rest join n a b ≡ bitwise rest join a b
  fueled bound n zero b below fits = fueled_zero n b
  fueled zero n (suc a) b below fits = absurd (omega arith)
  fueled (suc bound) zero (suc a) b below fits = absurd (omega arith)
  fueled (suc bound) (suc n) (suc a) b below fits =
      let here = fueled bound n (suc a / 2) (b / 2) (omega arith) (omega arith) in
      let there = fueled bound a (suc a / 2) (b / 2) (omega arith) (omega arith) in
      omega (arith, here, there)

  by_halves :
      ((b : ℕ) → rest b ≡ rest (b / 2) * 2 + join 0 (b % 2))
      → (a b : ℕ)
      → bitwise rest join a b ≡ bitwise rest join (a / 2) (b / 2) * 2 + join (a % 2) (b % 2)
  by_halves h zero b = h b
  by_halves h (suc a) b =
      let there = fueled a a (suc a / 2) (b / 2) (omega arith) (omega arith) in omega (arith, there)

bit_or_step : (a b : ℕ) → bit_or a b ≡ bit_or (a / 2) (b / 2) * 2 + max (a % 2) (b % 2)
bit_or_step a b = simp bit_or-bitwise (by_halves (λ y. y) max (λ y. omega arith) a b)

bit_and_step : (a b : ℕ) → bit_and a b ≡ bit_and (a / 2) (b / 2) * 2 + min (a % 2) (b % 2)
bit_and_step a b = simp bit_and-bitwise (by_halves (λ y. 0) min (λ y. omega arith) a b)

-- The digits of an or.
pub bit-bit_or : (i a b : ℕ) → bit i (bit_or a b) ≡ max (bit i a) (bit i b)
unfolding bit
bit-bit_or zero a b = omega (arith, bit_or_step a b)
bit-bit_or (suc i) a b =
    let half : bit_or a b / 2 ≡ bit_or (a / 2) (b / 2) = omega (arith, bit_or_step a b) in
    rw half (bit-bit_or i (a / 2) (b / 2))

div_pow_suc : (x s : ℕ) → x / 2 ^ suc s ≡ x / 2 / 2 ^ s
div_pow_suc x s = rw (pow-succ' 2 s) (sym (div-div-eq-div-mul x 2 (2 ^ s)))

-- The digits of a right shift.
pub bit-shift : (s i x : ℕ) → bit i (x / 2 ^ s) ≡ bit (i + s) x
unfolding bit
bit-shift zero i x = rw (add-zero, div-one x)
bit-shift (suc s) i x = rw (div_pow_suc x s, add-suc) (bit-shift s i (x / 2))

pub bit-le : (i x : ℕ) → bit i x ≤ 1
unfolding bit
bit-le zero x = omega arith
bit-le (suc i) x = bit-le i (x / 2)

-- A number below `2 ^ k` has no digit from `k` on.
pub bit_above : (k i x : ℕ) → k ≤ i → x < 2 ^ k → bit i x ≡ 0
unfolding bit
bit_above zero zero x h p = omega arith
bit_above (suc k) zero x h p = absurd (omega arith)
bit_above zero (suc i) x h p = bit_above zero i (x / 2) (omega arith) (omega arith)
bit_above (suc k) (suc i) x h p = bit_above k i (x / 2) (omega arith) (omega (arith, pow-succ' 2 k))

-- A number with no digit set is zero.
zero_of_bits_fuel : (f x : ℕ) → x ≤ f → ((i : ℕ) → bit i x ≡ 0) → x ≡ 0
unfolding bit
zero_of_bits_fuel zero x h z = omega arith
zero_of_bits_fuel (suc f) x h z =
    omega (arith, z 0, zero_of_bits_fuel f (x / 2) (omega arith) (λ i. z (suc i)))

-- A number whose digits below `k` are ones and whose other digits are zeros.
pub all_ones_lem :
    (k x : ℕ) → ((i : ℕ) → i < k → bit i x ≡ 1) → ((i : ℕ) → k ≤ i → bit i x ≡ 0) → x + 1 ≡ 2 ^ k
unfolding bit
all_ones_lem zero x ones zeros =
    omega (arith, zero_of_bits_fuel x x (omega arith) (λ i. zeros i (omega arith)))
all_ones_lem (suc k) x ones zeros = omega (
  arith,
  ones 0 (omega arith),
  pow-succ' 2 k,
  all_ones_lem k (x / 2) (λ i h. ones (suc i) (omega arith)) (λ i h. zeros (suc i) (omega arith)),
)

above_one : (x : ℕ) → x < 2 → (i : ℕ) → 0 < i → bit i x ≡ 0
unfolding bit
above_one x h zero q = absurd (omega arith)
above_one x h (suc i) q = bit_above 0 i (x / 2) (omega arith) (omega arith)

above_half : (k x : ℕ) → ((i : ℕ) → k < i → bit i (x / 2) ≡ 0) → (i : ℕ) → suc k < i → bit i x ≡ 0
unfolding bit
above_half k x h zero q = absurd (omega arith)
above_half k x h (suc i) q = h i (omega arith)

-- The highest digit of a number that is not zero, with the two powers that it lies between.
pub top_bit :
    (f x : ℕ)
    → x < f
    → 0 < x
    → (k : ℕ) × (bit k x ≡ 1) × ((i : ℕ) → k < i → bit i x ≡ 0) × (2 ^ k ≤ x) × (x < 2 ^ suc k)
unfolding bit
top_bit zero x h p = absurd (omega arith)
top_bit (suc f) x h p = elim (dec_lt 1 x) [
  | no small ↦ (0, omega arith, above_one x (omega arith), omega arith, omega arith)
  | yes big ↦
      let (k, top, above, low, high) = top_bit f (x / 2) (omega arith) (omega arith) in
      (
        suc k,
        top,
        above_half k x above,
        omega (arith, pow-succ' 2 k),
        omega (arith, pow-succ' 2 (suc k)),
      )
]

mod_half : (a m : ℕ) → 0 < m → a % (2 * m) ≡ a / 2 % m * 2 + a % 2
mod_half a m h =
    let c : ℕ = a / 2 % m * 2 + a % 2 in
    let split : a ≡ 2 * m * (a / 2 / m) + c =
      omega (arith, ap (λ (t : ℕ). 2 * t) (div-add-mod (a / 2) m)) in
    ap (λ t. t % (2 * m)) split
    ∙ mul-add-mod_self_left (2 * m) (a / 2 / m) c
    ∙ mod-eq_of_lt (omega (arith, mod-lt (a / 2) h))

bit_and-zero : (f a : ℕ) → a ≤ f → bit_and a 0 ≡ 0
bit_and-zero zero a h = let e : a ≡ 0 = omega arith in rw e
bit_and-zero (suc f) a h = omega (arith, bit_and_step a 0, bit_and-zero f (a / 2) (omega arith))

-- An and with a mask of `k` ones is a remainder.
pub bit_and_mask : (k a m : ℕ) → m + 1 ≡ 2 ^ k → bit_and a m ≡ a % 2 ^ k
bit_and_mask zero a m h =
    let e : m ≡ 0 = omega arith in rw (e, mod-one a) (bit_and-zero a a (omega arith))
bit_and_mask (suc k) a m h =
    let double : 2 ^ suc k ≡ 2 * 2 ^ k = pow-succ' 2 k in
    rw (double, mod_half a (2 ^ k) (one-le-pow k 2 (omega arith)))
      (omega (arith, bit_and_step a m, bit_and_mask k (a / 2) (m / 2) (omega arith)))
