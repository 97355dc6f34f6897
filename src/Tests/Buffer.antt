-- ===== src/Tests/Buffer.antt =====
-- internal/buffer/pool.go: the theorem at a concrete input.
use go_wst.Prelude.{◌≤◌, List, [], ◌∷◌, All, arith}
use go_wst.Prelude.Int.{pos, ◌≤ℤ◌}
use go_wst.Buffer.{make, new_pool, get_with_size, max_buffer_size}
use go_wst.Buffer.Bounds.{Call, gets, gets_with_size, puts, forgets, run, get_with_size-run}

-- A buffer of the pool and a larger one come back, and one too large.
abbrev calls : List Call
calls =
    gets 0
    ∷ gets_with_size 0 (pos 8000)
    ∷ puts (make 4096)
    ∷ puts (make 8000)
    ∷ puts (make 70000)
    ∷ forgets 1
    ∷ []

get_with_size-run_example :
    (pos 100 ≤ℤ pos (get_with_size 0 (pos 100) (run calls (new_pool (pos 0)))).1.len)
    × All (λ b. b.cap ≤ max_buffer_size) (run calls (new_pool (pos 0))).pool
unfolding new_pool
get_with_size-run_example =
    get_with_size-run (pos 0) calls 0 (pos 100) (omega arith, (omega arith, (omega arith, tt)))
