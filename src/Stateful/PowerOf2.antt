-- ===== src/Stateful/PowerOf2.antt =====
-- stateful/hub.go, `nextPowerOf2`: the rounding of the number of shards.
use go_wst.Prelude.{
  ℕ, zero, suc, ◌+◌, ◌-◌, ◌/◌, ◌^◌, ◌≤◌, ◌<◌, ◌≡◌, refl, subst, bit_or, arith, dec_lt,
}
use go_wst.Prelude.Bits.{bit, bit-bit_or, bit-shift, bit-le, all_ones_lem, top_bit}
use native.Mathlib.Nat.{pow-le-pow_right}

-- `n |= n >> s`
unfoldable pub smear : ℕ → ℕ → ℕ
smear s n = bit_or n (n / 2 ^ s)

-- `NewHub` calls it with a positive `int` only; `n--` cannot go below zero there.
unfoldable pub next_power_of2 : ℕ → ℕ
unfolding smear
next_power_of2 n = smear 16 (smear 8 (smear 4 (smear 2 (smear 1 (n - 1))))) + 1

-- The digits of `x` from `lo` up to `k` are ones, and those above `k` are zeros.
record Filled (k lo x : ℕ) : Type 0 where
  ones : (i : ℕ) → lo ≤ i → i ≤ k → bit i x ≡ 1
  zeros : (i : ℕ) → k < i → bit i x ≡ 0

-- A shift by `s` doubles the run of ones while `s` of them are there.
smear-Filled :
    (s k lo x : ℕ) → (0 < lo → lo + s ≤ k + 1) → Filled k lo x → Filled k (lo - s) (smear s x)
unfolding smear
smear-Filled s k lo x enough f = record {
  ones = λ i low high. elim (dec_lt i lo) [
    | no in_run ↦
        omega (arith, bit-bit_or i x (x / 2 ^ s), f.ones i (omega arith) high, bit-le i (x / 2 ^ s))
    | yes below ↦ omega (
      arith,
      bit-bit_or i x (x / 2 ^ s),
      bit-shift s i x,
      f.ones (i + s) (omega arith) (omega (arith, enough (omega arith))),
      bit-le i x,
    )
  ];
  zeros = λ i above. omega (
    arith,
    bit-bit_or i x (x / 2 ^ s),
    bit-shift s i x,
    f.zeros i above,
    f.zeros (i + s) (omega arith),
  );
}

-- Five rounds fill every digit, when there are at most 32.
smear_all :
    (k x : ℕ)
    → k < 32
    → Filled k k x
    → Filled k 0 (smear 16 (smear 8 (smear 4 (smear 2 (smear 1 x)))))
smear_all k x h f =
    let done : k - 1 - 2 - 4 - 8 - 16 ≡ 0 = omega arith in
    subst (λ lo. Filled k lo (smear 16 (smear 8 (smear 4 (smear 2 (smear 1 x)))))) done
      (smear-Filled 16 k _ _ (omega arith) (
        smear-Filled 8 k _ _ (omega arith) (
          smear-Filled 4 k _ _ (omega arith)
            (smear-Filled 2 k _ _ (omega arith) (smear-Filled 1 k _ _ (omega arith) f)))))

Filled-ones : (k x : ℕ) → Filled k 0 x → x + 1 ≡ 2 ^ suc k
Filled-ones k x f =
    all_ones_lem (suc k) x (λ i h. f.ones i (omega arith) (omega arith))
      (λ i h. f.zeros i (omega arith))

top-Filled : (k x : ℕ) → bit k x ≡ 1 → ((i : ℕ) → k < i → bit i x ≡ 0) → Filled k k x
top-Filled k x top above = record {
  ones = λ i low high. let e : k ≡ i = omega arith in rw (← e) top;
  zeros = above;
}

-- The exponents are in the order of the powers.
lt_of_pow-lt : (j k : ℕ) → 2 ^ j < 2 ^ k → j < k
lt_of_pow-lt j k h = elim (dec_lt j k) [
  | yes p ↦ p
  | no p ↦
      absurd (omega (arith, pow-le-pow_right {n = 2} (omega arith) {i = k} {j = j} (omega arith)))
]

abbrev IsLeastPower : ℕ → ℕ → ℕ → Type 0
IsLeastPower n r k = (r ≡ 2 ^ k) × (n ≤ r) × ((j : ℕ) → n ≤ 2 ^ j → r ≤ 2 ^ j)

above_top : (n k j : ℕ) → 2 ^ k ≤ n - 1 → n ≤ 2 ^ j → 0 < n → 2 ^ suc k ≤ 2 ^ j
above_top n k j low h p = pow-le-pow_right {n = 2} (omega arith) (lt_of_pow-lt k j (omega arith))

next_power_of2-many : (n : ℕ) → 1 < n → n ≤ 2 ^ 32 → (k : ℕ) × IsLeastPower n (next_power_of2 n) k
unfolding next_power_of2
next_power_of2-many n p q =
    let (k, top, above, low, high) = top_bit n (n - 1) (omega arith) (omega arith) in
    let few : k < 32 = lt_of_pow-lt k 32 (omega arith) in
    let value : next_power_of2 n ≡ 2 ^ suc k =
      Filled-ones k _ (smear_all k (n - 1) few (top-Filled k (n - 1) top above)) in
    (suc k, (value, omega (arith, value), λ j h. rw value (above_top n k j low h (omega arith))))

next_power_of2-one : IsLeastPower 1 (next_power_of2 1) 0
unfolding next_power_of2
next_power_of2-one = (refl, omega arith, λ j h. h)

-- The result is the least power of two that is not below `n`, for `n` from 1 to 2^32.
pub next_power_of2-least :
    (n : ℕ)
    → 0 < n
    → n ≤ 2 ^ 32
    → (k : ℕ) × (next_power_of2 n ≡ 2 ^ k)
      × (n ≤ next_power_of2 n)
      × ((j : ℕ) → n ≤ 2 ^ j → next_power_of2 n ≤ 2 ^ j)
next_power_of2-least zero p q = absurd (omega arith)
next_power_of2-least (suc zero) p q =
    let (value, low, least) = next_power_of2-one in (0, value, low, least)
next_power_of2-least (suc (suc n)) p q =
    let (k, (value, low, least)) = next_power_of2-many (suc (suc n)) (omega arith) q in
    (k, value, low, least)
