-- ===== src/Ws/Handler/Limit.antt =====
-- ws/server.go: the connection limit is read before the count is raised.
use go_wst.Prelude.{
  ℕ, zero, suc, ◌+◌, ◌≤◌, ◌<◌, ◌≡◌, ◌≢◌, refl, ap, ◌∙◌, String, List, [], ◌∷◌, ◌++◌, true, false,
  arith, ℕ_discrete,
}
use go_wst.Prelude.Int.{pos, inc64, inc64-pos, max_int64}
use go_wst.Ws.Server.{Server, at_limit, add_count, write_conn}
use go_wst.Ws.Handler.{
  Phase, waiting, admitted, gone, Input, requests, upgrades, step, System, advance, run,
}

-- A request is refused exactly while a positive limit is reached, and a refusal changes nothing.
pub step-requests :
    (c n : ℕ) (s : Server) (limit : ℕ)
    → s.max_connections ≡ pos limit
    → s.conn_count ≡ pos n
    → 0 < limit
    → ((limit ≤ n) → step c requests s waiting ≡ (s, gone))
      × ((n < limit) → step c requests s waiting ≡ (s, admitted))
unfolding step at_limit
step-requests c n s limit m k h = (
  (λ full. let e : at_limit s ≡ true = ground arith in rw e),
  (λ room. let e : at_limit s ≡ false = ground arith in rw e),
)

-- First every one of `n` threads from `c` on sends its request, then every upgrade succeeds.
unfoldable pub all_request : ℕ → ℕ → List (ℕ × Input)
all_request zero c = []
all_request (suc n) c = (c, requests) ∷ all_request n (c + 1)

unfoldable pub all_upgrade : String → ℕ → ℕ → List (ℕ × Input)
all_upgrade id zero c = []
all_upgrade id (suc n) c = (c, upgrades true id) ∷ all_upgrade id n (c + 1)

-- The threads from `c` up to `c + n` stand in a phase.
abbrev Stand : Phase → ℕ → ℕ → System → Type 0
Stand p c n y = (j : ℕ) → c ≤ j → j < c + n → y.phase j ≡ p

advance-other : (c j : ℕ) (i : Input) (y : System) → j ≢ c → (advance c i y).phase j ≡ y.phase j
unfolding advance
advance-other c j i y h = ground arith

advance_self :
    (c : ℕ) (i : Input) (y : System) (p : Phase)
    → y.phase c ≡ p
    → ((advance c i y).server ≡ (step c i y.server p).0)
      × ((advance c i y).phase c ≡ (step c i y.server p).1)
unfolding advance
advance_self c i y p e = (ap (λ q. (step c i y.server q).0) e, ground (arith, e))

upgrade-count :
    (id : String) (c k : ℕ) (y : System)
    → k < max_int64
    → y.server.conn_count ≡ pos k
    → y.phase c ≡ admitted
    → (advance c (upgrades true id) y).server.conn_count ≡ pos (k + 1)
unfolding step add_count write_conn
upgrade-count id c k y h e p =
    ap (λ s. s.conn_count) (advance_self c (upgrades true id) y admitted p).0
    ∙ ap inc64 e
    ∙ inc64-pos k h

run-all_upgrade :
    (id : String) (n c k : ℕ) (y : System)
    → k + n ≤ max_int64
    → y.server.conn_count ≡ pos k
    → Stand admitted c n y
    → (run (all_upgrade id n c) y).server.conn_count ≡ pos (k + n)
unfolding run all_upgrade
run-all_upgrade id zero c k y h e st = e ∙ ap pos (omega arith)
run-all_upgrade id (suc n) c k y h e st =
    let sum : k + 1 + n ≡ k + suc n = omega arith in
    run-all_upgrade id n (c + 1) (k + 1) (advance c (upgrades true id) y) (omega arith)
      (upgrade-count id c k y (omega arith) e (st c (omega arith) (omega arith)))
      (λ j low high.
        advance-other c j (upgrades true id) y (λ (p : j ≡ c). omega arith)
        ∙ st j (omega arith) (omega arith))
    ∙ ap pos sum

-- Requests leave the server alone while there is room, and admit each thread.
run-all_request :
    (n c : ℕ) (y : System)
    → at_limit y.server ≡ false
    → Stand waiting c n y
    → ((run (all_request n c) y).server ≡ y.server)
      × Stand admitted c n (run (all_request n c) y)
      × ((j : ℕ) → j < c → (run (all_request n c) y).phase j ≡ y.phase j)
unfolding run all_request step
run-all_request zero c y room st = (refl, (λ j low high. absurd (omega arith)), λ j h. refl)
run-all_request (suc n) c y room st =
    let self = advance_self c requests y waiting (st c (omega arith) (omega arith)) in
    let admits : step c requests y.server waiting ≡ (y.server, admitted) = rw room in
    let same : (advance c requests y).server ≡ y.server = self.0 ∙ ap (λ r. r.0) admits in
    let here : (advance c requests y).phase c ≡ admitted = self.1 ∙ ap (λ r. r.1) admits in
    let (server, stand, below) =
      run-all_request n (c + 1) (advance c requests y) (ap at_limit same ∙ room) (λ j low high.
        advance-other c j requests y (λ (p : j ≡ c). omega arith)
        ∙ st j (omega arith) (omega arith)) in
    (
      server ∙ same,
      (λ j low high. elim (ℕ_discrete j c) [
        | yes e ↦ rw e (below c (omega arith) ∙ here)
        | no ne ↦ stand j (omega (arith, ne)) (omega arith)
      ]),
      (λ j h. below j (omega arith) ∙ advance-other c j requests y (λ (p : j ≡ c). omega arith)),
    )

run-append : (xs ys : List (ℕ × Input)) (y : System) → run (xs ++ ys) y ≡ run ys (run xs y)
unfolding run
run-append [] ys y = refl
run-append ((c, i) ∷ xs) ys y = run-append xs ys (advance c i y)

-- The limit does not bound the count: where a server is below its limit with no connection, any
-- number of requests that are checked before the first of them is counted are all let in.
pub limit_race :
    (n : ℕ) (id : String) (y : System)
    → at_limit y.server ≡ false
    → y.server.conn_count ≡ pos 0
    → n ≤ max_int64
    → ((j : ℕ) → y.phase j ≡ waiting)
    → (run (all_request n 0 ++ all_upgrade id n 0) y).server.conn_count ≡ pos n
limit_race n id y room e h st =
    let (server, stand, _) = run-all_request n 0 y room (λ j low high. st j) in
    let total : 0 + n ≡ n = omega arith in
    ap (λ z. z.server.conn_count) (run-append (all_request n 0) (all_upgrade id n 0) y)
    ∙ run-all_upgrade id n 0 0 (run (all_request n 0) y) (omega arith)
        (ap (λ s. s.conn_count) server ∙ e) stand
    ∙ ap pos total
