-- ===== src/Authhook/Waiting.antt =====
-- example/authhook/main.go, `waitConn`: it ends, and what its answer says.
use go_wst.Prelude.{
  ℕ, zero, suc, ℕ_discrete, ◌+◌, ◌*◌, ◌≤◌, ◌<◌, ◌≡◌, ◌↔◌, inl, inr, refl, Option, some, Bool, true,
  false, ltb, leb, arith, Bool-cases,
}
use go_wst.Authhook.{wait_loop, wait_conn}

-- `Sleep` of ten milliseconds, in nanoseconds.
abbrev pub pause : ℕ
pause = 10000000

-- A round from `i` on that is in time and finds enough connections.
abbrev pub Finds : (ℕ → ℕ) → (ℕ → ℕ) → ℕ → ℕ → ℕ → Type 0
Finds clock got n deadline i = (j : ℕ) × (i ≤ j) × (clock j < deadline) × (n ≤ got j)

module _ (clock got : ℕ → ℕ) (sleeps : (i : ℕ) → 0 < i → clock i + pause ≤ clock (suc i)) where
  clock_later : (i j : ℕ) → 0 < i → i ≤ j → clock i ≤ clock j
  clock_later i zero h le = absurd (omega arith)
  clock_later i (suc j) h le = elim (ℕ_discrete i (suc j)) [
    | yes e ↦ rw e (omega arith)
    | no ne ↦ omega (arith, clock_later i j h (omega arith), sleeps j (omega arith))
  ]

  too_late : (n deadline i : ℕ) → 0 < i → deadline ≤ clock i → Finds clock got n deadline i → ⊥
  too_late n deadline i h late (j, le, early, enough) = omega (arith, clock_later i j h le)

  -- With enough fuel the loop ends, and answers whether a round in time finds enough.
  Answers : ℕ → ℕ → ℕ → Option Bool → Type 0
  Answers n deadline i o = (b : Bool) × (o ≡ some b) × ((b ≡ true) ↔ Finds clock got n deadline i)

  one_more :
      (n deadline i : ℕ) (o : Option Bool)
      → leb n (got i) ≡ false
      → Answers n deadline (suc i) o
      → Answers n deadline i o
  unfolding Answers
  one_more n deadline i o few (b, e, (to, from)) = (
    b,
    e,
    (
      (λ h. let (j, le, early, enough) = to h in (j, omega arith, early, enough)),
      (λ (j, le, early, enough). elim (ℕ_discrete j i) [
        | yes same ↦ absurd (let k : n ≤ got i = rw same at enough in ground arith)
        | no ne ↦ from (j, omega arith, early, enough)
      ]),
    ),
  )

  -- One round, where the rounds after it are as they should be.
  round :
      (n deadline fuel i : ℕ)
      → 0 < i
      → (clock i < deadline
          → Answers n deadline (suc i) (wait_loop clock got n deadline fuel (suc i)))
      → Answers n deadline i (wait_loop clock got n deadline (suc fuel) i)
  unfolding wait_loop Answers
  round n deadline fuel i h rest = elim (Bool-cases (ltb (clock i) deadline)) [
    | inr late ↦ rw late (
      false,
      refl,
      ((λ e. absurd (cc)), (λ f. absurd (too_late n deadline i h (ground arith) f))),
    )
    | inl early ↦ elim (Bool-cases (leb n (got i))) [
      | inl found ↦
          rw (early, found)
            (true, refl, ((λ e. (i, omega arith, ground arith, ground arith)), (λ f. refl)))
      | inr few ↦ rw (early, few) (one_more n deadline i _ few (rest (ground arith)))
    ]
  ]

  wait_loop-total :
      (n deadline fuel i : ℕ)
      → 0 < i
      → deadline ≤ clock i + fuel * pause
      → Answers n deadline i (wait_loop clock got n deadline (suc fuel) i)
  wait_loop-total n deadline zero i h enough =
      round n deadline zero i h (λ early. absurd (omega arith))
  wait_loop-total n deadline (suc fuel) i h enough =
      round n deadline (suc fuel) i h
        (λ early. wait_loop-total n deadline fuel (suc i) (omega arith) (omega (arith, sleeps i h)))

  -- Where the clock does not run backwards and a round of the loop takes ten milliseconds or more,
  -- `waitConn` ends after as many rounds as its timeout has such pauses, and one more; it answers
  -- true just when some round before the deadline finds the number of connections it waits for.
  pub wait_conn-total :
      (fuel n timeout : ℕ)
      → clock 0 ≤ clock 1
      → timeout ≤ fuel * pause
      → (b : Bool) × (wait_conn (suc fuel) clock got n timeout ≡ some b)
        × ((b ≡ true) ↔ Finds clock got n (clock 0 + timeout) 1)
  unfolding wait_conn Answers
  wait_conn-total fuel n timeout start enough =
      wait_loop-total n (clock 0 + timeout) fuel 1 (omega arith) (omega arith)
