-- ===== src/Ws/Handler/Count.antt =====
-- ws/server.go: `connCount` over all schedules of the handlers.
use go_wst.Prelude.{
  ℕ, ◌+◌, ◌≤◌, ◌<◌, ◌≡◌, refl, sym, ap, ◌∙◌, String, List, [], ◌∷◌, Option, Bool, true, false,
  arith, All, Bool-cases, inl, inr,
}
use go_wst.Prelude.Int.{ℤ, pos, inc64, dec64, inc64-pos, dec64-pos, max_int64}
use go_wst.Prelude.Sums.{sum_below, sum_below-zero}
use go_wst.Registry.{count_step}
use go_wst.Prelude.Go.{Go, returns, panics}
use go_wst.Prelude.Result.{Result, ok, err}
use go_wst.Ws.Connection.{Connection}
use go_wst.Ws.Server.{
  Server, new_server, add_count, drop_count, write_conn, register_connection, unregister_listed,
  unregister_bound, bind_user, close_conn, refuse_conn, after_close, at_limit,
}
use go_wst.Ws.Handler.{
  Phase, waiting, admitted, counted, allowed, listed, running, closing, unlisted, unbound, gone,
  Input, authenticated, requests, upgrades, authenticates, connects, renames, pumps_end, goes, step,
  System, advance, run, start,
}

-- A thread counts from `connCount.Add(1)` to `connCount.Add(-1)`.
abbrev pub live : Phase → ℕ
live waiting = 0
live admitted = 0
live gone = 0
live _ = 1

after_close-count :
    (c : ℕ) (s : Server) (r : Go (Connection × Option String))
    → (after_close c s r).conn_count ≡ s.conn_count
unfolding after_close write_conn
after_close-count c s panics = refl
after_close-count c s (returns r) = refl

close_conn-count : (c : ℕ) (s : Server) → (close_conn c s).conn_count ≡ s.conn_count
unfolding close_conn
close_conn-count c s = after_close-count c s _

refuse_conn-count : (c : ℕ) (s : Server) → (refuse_conn c s).conn_count ≡ s.conn_count
unfolding refuse_conn write_conn
refuse_conn-count c s = after_close-count c _ _

unregister_bound-count : (c : ℕ) (s : Server) → (unregister_bound c s).conn_count ≡ s.conn_count
unfolding unregister_bound
unregister_bound-count c s = ground arith

authenticated-count :
    (enabled : Bool) (r : Result String String) (c : ℕ) (s : Server) (k : ℕ)
    → s.conn_count ≡ pos (k + 1)
    → (authenticated enabled r c s).0.conn_count ≡ pos (k + live (authenticated enabled r c s).1)
unfolding authenticated drop_count bind_user write_conn
authenticated-count false r c s k e = e
authenticated-count true (err x) c s k e =
    ap dec64 (refuse_conn-count c s ∙ e) ∙ dec64-pos k ∙ ap pos (omega arith)
authenticated-count true (ok user) c s k e = ground arith

-- Beside `k` other threads, a step keeps the count at the number of threads that count.
step-count :
    (c : ℕ) (i : Input) (s : Server) (p : Phase) (k : ℕ)
    → k < max_int64
    → s.conn_count ≡ pos (k + live p)
    → (step c i s p).0.conn_count ≡ pos (k + live (step c i s p).1)
unfolding step add_count drop_count write_conn register_connection unregister_listed bind_user
step-count c requests s waiting k h e = elim (Bool-cases (at_limit s)) [
  | inl full ↦ rw full e
  | inr room ↦ rw room e
]
step-count c (upgrades false conn_id) s admitted k h e = e
step-count c (upgrades true conn_id) s admitted k h e =
    ap inc64 (e ∙ ap pos (omega arith)) ∙ inc64-pos k h
step-count c (authenticates r) s counted k h e = authenticated-count s.auth_enabled r c s k e
step-count c goes s allowed k h e = e
step-count c (connects true) s listed k h e = e
step-count c (connects false) s listed k h e = close_conn-count c s ∙ e
step-count c (renames user) s running k h e = e
step-count c pumps_end s running k h e = close_conn-count c s ∙ e
step-count c goes s closing k h e = e
step-count c goes s unlisted k h e = unregister_bound-count c s ∙ e
step-count c goes s unbound k h e = ap dec64 e ∙ dec64-pos k ∙ ap pos (omega arith)
step-count c _ s p k h e = e

-- The system with `n` threads at most counts each of those that count.
abbrev Counts : ℕ → System → Type 0
Counts n y = y.server.conn_count ≡ pos (sum_below n (λ j. live (y.phase j)))

live-le : (p : Phase) → live p ≤ 1
live-le waiting = omega arith
live-le admitted = omega arith
live-le gone = omega arith
live-le _ = omega arith

advance-Counts :
    (n c : ℕ) (i : Input) (y : System)
    → n ≤ max_int64
    → c < n
    → Counts n y
    → Counts n (advance c i y)
unfolding advance
advance-Counts n c i y fits h e =
    count_step live 1 n c y.server.conn_count _ y.phase _ live-le (omega arith) h
      (λ k below before. step-count c i y.server (y.phase c) k (omega arith) before) e

run-Counts :
    (n : ℕ) (schedule : List (ℕ × Input)) (y : System)
    → n ≤ max_int64
    → All (λ e. e.0 < n) schedule
    → Counts n y
    → Counts n (run schedule y)
unfolding run
run-Counts n [] y fits h e = e
run-Counts n ((c, i) ∷ rest) y fits h e =
    run-Counts n rest (advance c i y) fits h.1 (advance-Counts n c i y fits h.0 e)

-- Whatever the interleaving of fewer than 2^63 requests, the connection count of the WebSocket
-- server is the number of handlers between their count and their end; so it is never negative, and
-- zero once all of them are over.
pub run-new_server-count :
    (n : ℕ) (schedule : List (ℕ × Input)) (max_connections timeout : ℤ) (auth : Bool)
    (write_fails : ℕ → Bool) (conns : ℕ → Connection)
    → n ≤ max_int64
    → All (λ e. e.0 < n) schedule
    → let y = run schedule (start (new_server max_connections auth timeout write_fails conns)) in
      y.server.conn_count ≡ pos (sum_below n (λ j. live (y.phase j)))
unfolding new_server
run-new_server-count n schedule max_connections timeout auth write_fails conns fits h =
    run-Counts n schedule _ fits h (ap pos (sym (sum_below-zero n (λ j. 0) (λ j p. refl))))
