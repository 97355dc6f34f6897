-- ===== src/Wt/Handler/Count.antt =====
-- wt/server.go: `connCount` over all schedules of the handlers. A connection is counted twice, once
-- before `registerConnection` and once in it, and dropped once.
use go_wst.Prelude.{
  ℕ, zero, suc, ◌+◌, ◌*◌, ◌≤◌, ◌<◌, ◌≡◌, refl, sym, ap, ◌∙◌, String, List, [], ◌∷◌, Option, Bool,
  true, false, arith, All, Bool-cases, inl, inr,
}
use go_wst.Prelude.Int.{ℤ, pos, inc64, dec64, inc64-pos, dec64-pos, max_int64}
use go_wst.Prelude.Sums.{sum_below, sum_below-zero, sum_below-same}
use go_wst.Registry.{count_step}
use go_wst.Prelude.Go.{Go, returns, panics}
use go_wst.Prelude.Result.{Result, ok, err}
use go_wst.Wt.Connection.{Connection}
use go_wst.Wt.Server.{
  Server, new_server, add_count, drop_count, write_conn, register_listed, unregister_listed,
  unregister_bound, bind_user, close_conn, after_close, at_limit,
}
use go_wst.Wt.Handler.{
  Phase, waiting, admitted, opened, allowed, counted, listed, raised, running, closing, unlisted,
  unbound, finished, gone, Input, authenticated, requests, upgrades, authenticates, connects,
  renames, streams_end, goes, step, System, advance, run, start,
}

-- How often a thread is in the count. One that is over stays in it once.
abbrev pub share : Phase → ℕ
share waiting = 0
share admitted = 0
share opened = 0
share allowed = 0
share gone = 0
share counted = 1
share listed = 1
share finished = 1
share _ = 2

after_close-conn_count :
    (c : ℕ) (s : Server) (r : Go (Connection × Option String))
    → (after_close c s r).conn_count ≡ s.conn_count
unfolding after_close write_conn
after_close-conn_count c s panics = refl
after_close-conn_count c s (returns r) = refl

close_conn-conn_count : (c : ℕ) (s : Server) → (close_conn c s).conn_count ≡ s.conn_count
unfolding close_conn
close_conn-conn_count c s = after_close-conn_count c s _

unregister_bound-conn_count :
    (c : ℕ) (s : Server) → (unregister_bound c s).conn_count ≡ s.conn_count
unfolding unregister_bound
unregister_bound-conn_count c s = ground arith

authenticated-conn_count :
    (enabled : Bool) (r : Result String String) (c : ℕ) (s : Server) (k : ℕ)
    → s.conn_count ≡ pos (k + 0)
    → (authenticated enabled r c s).0.conn_count ≡ pos (k + share (authenticated enabled r c s).1)
unfolding authenticated drop_count bind_user write_conn
authenticated-conn_count false r c s k e = e
authenticated-conn_count true (err x) c s k e = e
authenticated-conn_count true (ok user) c s k e = ground arith

-- Beside `k` of the other threads, a step keeps the count at the sum of the shares.
step-conn_count :
    (c : ℕ) (i : Input) (s : Server) (p : Phase) (k : ℕ)
    → k + 1 < max_int64
    → s.conn_count ≡ pos (k + share p)
    → (step c i s p).0.conn_count ≡ pos (k + share (step c i s p).1)
unfolding step add_count drop_count write_conn register_listed unregister_listed bind_user
step-conn_count c requests s waiting k h e = elim (Bool-cases (at_limit s)) [
  | inl full ↦ rw full e
  | inr room ↦ rw room e
]
step-conn_count c (upgrades false conn_id) s admitted k h e = e
step-conn_count c (upgrades true conn_id) s admitted k h e = e
step-conn_count c (authenticates r) s opened k h e =
    authenticated-conn_count s.auth_enabled r c s k e
step-conn_count c goes s allowed k h e =
    ap inc64 (e ∙ ap pos (omega arith)) ∙ inc64-pos k (omega arith)
step-conn_count c goes s counted k h e = e
step-conn_count c goes s listed k h e = ap inc64 e ∙ inc64-pos (k + 1) h ∙ ap pos (omega arith)
step-conn_count c (connects true) s raised k h e = e
step-conn_count c (connects false) s raised k h e = close_conn-conn_count c s ∙ e
step-conn_count c (renames user) s running k h e = e
step-conn_count c streams_end s running k h e = e
step-conn_count c goes s closing k h e = e
step-conn_count c goes s unlisted k h e = unregister_bound-conn_count c s ∙ e
step-conn_count c goes s unbound k h e = ap dec64 (e ∙ ap pos (omega arith)) ∙ dec64-pos (k + 1)
step-conn_count c _ s p k h e = e

abbrev Shares : ℕ → System → Type 0
Shares n y = y.server.conn_count ≡ pos (sum_below n (λ j. share (y.phase j)))

share-le : (p : Phase) → share p ≤ 2
share-le waiting = omega arith
share-le admitted = omega arith
share-le opened = omega arith
share-le allowed = omega arith
share-le gone = omega arith
share-le counted = omega arith
share-le listed = omega arith
share-le finished = omega arith
share-le _ = omega arith

advance-Shares :
    (n c : ℕ) (i : Input) (y : System)
    → n * 2 ≤ max_int64
    → c < n
    → Shares n y
    → Shares n (advance c i y)
unfolding advance
advance-Shares n c i y fits h e =
    count_step share 2 n c y.server.conn_count _ y.phase _ share-le fits h
      (λ k below before. step-conn_count c i y.server (y.phase c) k (omega arith) before) e

run-Shares :
    (n : ℕ) (schedule : List (ℕ × Input)) (y : System)
    → n * 2 ≤ max_int64
    → All (λ e. e.0 < n) schedule
    → Shares n y
    → Shares n (run schedule y)
unfolding run
run-Shares n [] y fits h e = e
run-Shares n ((c, i) ∷ rest) y fits h e =
    run-Shares n rest (advance c i y) fits h.1 (advance-Shares n c i y fits h.0 e)

-- Whatever the interleaving of fewer than 2^62 requests, the connection count of the WebTransport
-- server is the sum of the shares of its handlers: none before the handler counts, one or two while
-- the connection is served, and one for each served connection that is over.
pub run-new_server-share :
    (n : ℕ) (schedule : List (ℕ × Input)) (max_connections timeout : ℤ) (auth : Bool)
    (session_error : ℕ → Option String) (conns : ℕ → Connection)
    → n * 2 ≤ max_int64
    → All (λ e. e.0 < n) schedule
    → let y = run schedule (start (new_server max_connections auth timeout session_error conns)) in
      y.server.conn_count ≡ pos (sum_below n (λ j. share (y.phase j)))
unfolding new_server
run-new_server-share n schedule max_connections timeout auth session_error conns fits h =
    run-Shares n schedule _ fits h (ap pos (sym (sum_below-zero n (λ j. 0) (λ j p. refl))))

sum_below-ones : (n : ℕ) → sum_below n (λ _. 1) ≡ n
unfolding sum_below
sum_below-ones zero = refl
sum_below-ones (suc n) = omega (arith, sum_below-ones n)

-- When every one of `n` WebTransport requests, fewer than 2^62, has been served and is over, the
-- count of the server, which then serves none, is `n`.
run-finished :
    (n : ℕ) (schedule : List (ℕ × Input)) (max_connections timeout : ℤ) (auth : Bool)
    (session_error : ℕ → Option String) (conns : ℕ → Connection)
    → n * 2 ≤ max_int64
    → All (λ e. e.0 < n) schedule
    → ((j : ℕ)
        → j < n
        → (run schedule (start (new_server max_connections auth timeout session_error conns))).phase
            j
          ≡ finished)
    → (run schedule
        (start (new_server max_connections auth timeout session_error conns))).server.conn_count
      ≡ pos n
run-finished n schedule max_connections timeout auth session_error conns fits h over =
    run-new_server-share n schedule max_connections timeout auth session_error conns fits h
    ∙ ap pos (sum_below-same n (λ _. 1) _ (λ j p. ap share (over j p)) ∙ sum_below-ones n)
