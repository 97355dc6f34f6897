-- ===== src/Buffer/Bounds.antt =====
-- internal/buffer/pool.go: the sizes of the buffers that come out of a pool.
use go_wst.Prelude.{
  ℕ, zero, suc, ◌≤◌, ◌≡◌, refl, sym, subst, ◌∙◌, List, [], ◌∷◌, some, ltb, get_elem?, All, All-mono,
  arith, Bool-cases, Option-cases, inl, inr,
}
use go_wst.Prelude.Int.{ℤ, pos, ◌≤ℤ◌, leb_ℤ}
use go_wst.Buffer.{Buffer, Pool, new_pool, without, get, put, get_with_size, max_buffer_size}

-- A call on the pool, or a moment at which it forgets a buffer.
pub data Call : Type 0 where
  gets : ℕ → Call
  gets_with_size : ℕ → ℤ → Call
  puts : Buffer → Call
  forgets : ℕ → Call

unfoldable pub step : Call → Pool → Pool
unfolding get put get_with_size without
step (gets pick) p = (get pick p).0
step (gets_with_size pick size) p = (get_with_size pick size p).0
step (puts buf) p = put buf p
step (forgets i) p = record p { pool = without i p.pool }

unfoldable pub run : List Call → Pool → Pool
unfolding step
run [] p = p
run (call ∷ calls) p = run calls (step call p)

-- Every buffer that is put back is as large as those that the pool makes.
abbrev pub PutsBack : ℕ → List Call → Type 0
PutsBack n [] = Unit {0}
PutsBack n (puts buf ∷ calls) = (n ≤ buf.cap) × PutsBack n calls
PutsBack n (_ ∷ calls) = PutsBack n calls

-- What the pool holds is stretched to its capacity, which is within the bounds.
abbrev Held : ℕ → Buffer → Type 0
Held n b = (n ≤ b.len) × (b.len ≡ b.cap) × (b.cap ≤ max_buffer_size)

without-All : (P : Buffer → Type 0) (i : ℕ) (bs : List Buffer) → All P bs → All P (without i bs)
unfolding without
without-All P i [] v = v
without-All P zero (b ∷ bs) v = v.1
without-All P (suc i) (b ∷ bs) v = (v.0, without-All P i bs v.1)

picked :
    (P : Buffer → Type 0) (i : ℕ) (bs : List Buffer) (b : Buffer)
    → All P bs
    → get_elem? bs i ≡ some b
    → P b
picked P i [] b v e = absurd (cc)
picked P zero (x ∷ bs) b v e = subst P (some_inv e) v.0
  where
    some_inv : {x y : Buffer} → some x ≡ some y → x ≡ y
    some_inv q = cc
picked P (suc i) (x ∷ bs) b v e = picked P i bs b v.1 e

-- The pool after a call, and the buffer of a `Get`.
get-Held :
    (pick : ℕ) (p : Pool)
    → All (Held p.init_size) p.pool
    → All (Held p.init_size) (get pick p).0.pool
      × ((get pick p).0.init_size ≡ p.init_size)
      × (p.init_size ≤ (get pick p).1.len)
unfolding get
get-Held pick p v = elim (Option-cases (get_elem? p.pool pick)) [
  | inl e ↦ rw (e, get) (v, refl, omega arith)
  | inr (b, e) ↦
      rw (e, get)
        (
          without-All (Held p.init_size) pick p.pool v,
          refl,
          (picked (Held p.init_size) pick p.pool b v e).0,
        )
]

put-Held :
    (buf : Buffer) (p : Pool)
    → p.init_size ≤ buf.cap
    → All (Held p.init_size) p.pool
    → All (Held p.init_size) (put buf p).pool × ((put buf p).init_size ≡ p.init_size)
unfolding put
put-Held buf p large v = elim (Bool-cases (ltb max_buffer_size buf.cap)) [
  | inl big ↦ rw (big, put) (v, refl)
  | inr small ↦ rw (small, put) (((large, refl, ground arith), v), refl)
]

get_with_size-Held :
    (pick : ℕ) (size : ℤ) (p : Pool)
    → All (Held p.init_size) p.pool
    → All (Held p.init_size) (get_with_size pick size p).0.pool
      × ((get_with_size pick size p).0.init_size ≡ p.init_size)
      × (size ≤ℤ pos (get_with_size pick size p).1.len)
unfolding get_with_size
get_with_size-Held pick size p v = elim (Bool-cases (leb_ℤ size (pos p.init_size))) [
  | inl fits ↦
      rw (fits, get_with_size)
        (let (held, same, large) = get-Held pick p v in (held, same, ground (arith, fits, large)))
  | inr large ↦ rw (large, get_with_size) (v, refl, omega arith)
]

step-Held :
    (call : Call) (p : Pool)
    → PutsBack p.init_size (call ∷ [])
    → All (Held p.init_size) p.pool
    → All (Held p.init_size) (step call p).pool × ((step call p).init_size ≡ p.init_size)
unfolding step
step-Held (gets pick) p back v = let (held, same, _) = get-Held pick p v in (held, same)
step-Held (gets_with_size pick size) p back v =
    let (held, same, _) = get_with_size-Held pick size p v in (held, same)
step-Held (puts buf) p back v = put-Held buf p back.0 v
step-Held (forgets i) p back v = (without-All (Held p.init_size) i p.pool v, refl)

PutsBack-parts :
    (n : ℕ) (call : Call) (calls : List Call)
    → PutsBack n (call ∷ calls)
    → PutsBack n (call ∷ []) × PutsBack n calls
PutsBack-parts n (gets pick) calls back = (tt, back)
PutsBack-parts n (gets_with_size pick size) calls back = (tt, back)
PutsBack-parts n (puts buf) calls back = ((back.0, tt), back.1)
PutsBack-parts n (forgets i) calls back = (tt, back)

run-Held :
    (n : ℕ) (calls : List Call) (p : Pool)
    → p.init_size ≡ n
    → PutsBack n calls
    → All (Held n) p.pool
    → All (Held n) (run calls p).pool × ((run calls p).init_size ≡ n)
unfolding run
run-Held n [] p size back v = (v, size)
run-Held n (call ∷ calls) p size back v =
    let (now, later) = PutsBack-parts n call calls back in
    let (held, same) =
      step-Held call p (subst (λ i. PutsBack i (call ∷ [])) (sym size) now)
        (subst (λ i. All (Held i) p.pool) (sym size) v) in
    run-Held n calls (step call p) (same ∙ size) later
      (subst (λ i. All (Held i) (step call p).pool) size held)

-- As long as every buffer that is put back is at least as large as those that the pool makes, a
-- buffer that `GetWithSize` returns has the length that was asked for, or more, whatever calls were
-- made on the new pool before and whatever it has forgotten; what the pool holds is never larger
-- than the limit.
pub get_with_size-run :
    (init_size : ℤ) (calls : List Call) (pick : ℕ) (size : ℤ)
    → PutsBack (new_pool init_size).init_size calls
    → (size ≤ℤ pos (get_with_size pick size (run calls (new_pool init_size))).1.len)
      × All (λ b. b.cap ≤ max_buffer_size) (run calls (new_pool init_size)).pool
unfolding new_pool
get_with_size-run init_size calls pick size back =
    let n = (new_pool init_size).init_size in
    let p = run calls (new_pool init_size) in
    let (held, same) = run-Held n calls (new_pool init_size) refl back tt in
    (
      (get_with_size-Held pick size p (subst (λ i. All (Held i) p.pool) (sym same) held)).2,
      All-mono (Held n) (λ b. b.cap ≤ max_buffer_size) p.pool (λ b h. h.2) held,
    )
