-- ===== src/Registry/Counting.antt =====
-- ws/server.go, wt/server.go and hybrid/server.go: a count that the threads of many handlers change,
-- each by at most `w`, as the sum of what the threads contribute.
use go_wst.Prelude.{ℕ, ◌+◌, ◌*◌, ◌≤◌, ◌<◌, ◌≡◌, sym, ap, fun_ext, ◌∙◌, if◌then◌else◌, ◌==◌, arith}
use go_wst.Prelude.Int.{ℤ, pos, max_int64}
use go_wst.Prelude.Sums.{sum_below, sum_below-bound, put, put_le, sum_below-put}

module _ {P : Type 0} (weight : P → ℕ) where
  sum_below-put_phase :
      (n c : ℕ) (q : P) (phase : ℕ → P)
      → c < n
      → sum_below n (put 0 c (λ j. weight (phase j))) + weight q
        ≡ sum_below n (λ j. weight (if j == c then q else phase j))
  sum_below-put_phase n c q phase h =
      let same : put (weight q) c (λ j. weight (phase j))
          ≡ (λ j. weight (if j == c then q else phase j)) =
        fun_ext (λ j. ground arith) in
      rw (← same) (
        omega (
          arith,
          sum_below-put n c 0 (λ j. weight (phase j)) h,
          sum_below-put n c (weight q) (λ j. weight (phase j)) h,
        ))

  -- A step that keeps the count right beside any contribution of the others keeps it right.
  pub count_step :
      (w n c : ℕ) (before after : ℤ) (phase : ℕ → P) (q : P)
      → ((p : P) → weight p ≤ w)
      → n * w ≤ max_int64
      → c < n
      → ((k : ℕ)
          → k + w ≤ max_int64
          → before ≡ pos (k + weight (phase c))
          → after ≡ pos (k + weight q))
      → before ≡ pos (sum_below n (λ j. weight (phase j)))
      → after ≡ pos (sum_below n (λ j. weight (if j == c then q else phase j)))
  count_step w n c before after phase q small fits h step e =
      let f : ℕ → ℕ = λ j. weight (phase j) in
      let k : ℕ = sum_below n (put 0 c f) in
      let split : k + weight (phase c) ≡ sum_below n f = omega (arith, sum_below-put n c 0 f h) in
      let below : k + w ≤ max_int64 = omega (
        arith,
        sum_below-put n c 0 f h,
        sum_below-put n c w f h,
        sum_below-bound n (put w c f) w (put_le w c f (λ j. small (phase j))),
      ) in
      step k below (e ∙ ap pos (sym split)) ∙ ap pos (sum_below-put_phase n c q phase h)
