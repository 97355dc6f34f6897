-- ===== src/Hybrid/Serving/Counted.antt =====
-- hybrid/server.go: `connCount` of the hybrid server over all schedules of the handlers of its
-- WebSocket server, as if each change of it were atomic.
use go_wst.Prelude.{
  ℕ, ◌+◌, ◌≤◌, ◌<◌, ◌≡◌, refl, sym, ap, ◌∙◌, List, [], ◌∷◌, Bool, false, arith, All, Bool-cases,
  inl, inr,
}
use go_wst.Registry.{count_step}
use go_wst.Prelude.Int.{pos, inc64, dec64, inc64-pos, dec64-pos, max_int64}
use go_wst.Prelude.Sums.{sum_below, sum_below-zero}
use go_wst.Ws.Server as WsServer
use go_wst.Ws.Handler.{Phase, listed, running, connects}
use go_wst.Ws.Handler
use go_wst.Hybrid.Config.{HybridConf}
use go_wst.Hybrid.Server as HybridServer
use go_wst.Hybrid.Server.{
  ws_on_connect, on_connect, on_disconnect, bind_user, register_connection, unregister_connection,
}
use go_wst.Hybrid.Serving.{
  Stage, unmet, met, refused, Input, goes_on, meets, disconnects, binds, Both, proceeds,
  stage_after, web_step, step, System, advance, run, start,
}

-- A connection counts from `OnConnect` to `OnDisconnect`, or for ever if it is refused.
abbrev weight : Stage → ℕ
weight met = 1
weight refused = 1
weight _ = 0

abbrev place_weight : Phase × Stage → ℕ
place_weight p = weight p.1

weight-stage_after :
    (st : Stage) (i : Handler.Input) (p : Phase) → weight (stage_after st i p) ≡ weight st
unfolding stage_after
weight-stage_after met (connects false) listed = refl
weight-stage_after st _ _ = refl

weight-le : (st : Stage) → weight st ≤ 1
weight-le met = omega arith
weight-le refused = omega arith
weight-le _ = omega arith

step-weight :
    (c : ℕ) (i : Input) (b : Both) (p : Phase) (st : Stage) (k : ℕ)
    → k < max_int64
    → b.hybrid.conn_count ≡ pos (k + weight st)
    → (step c i b p st).0.hybrid.conn_count ≡ pos (k + weight (step c i b p st).1.1)
unfolding step web_step ws_on_connect on_connect register_connection on_disconnect
    unregister_connection bind_user
step-weight c (goes_on i) b p st k h e = elim (Bool-cases (proceeds i p st)) [
  | inl now ↦ rw now (e ∙ ap (λ m. pos (k + m)) (sym (weight-stage_after st i p)))
  | inr waits ↦ rw waits e
]
step-weight c meets b listed unmet k h e = ap inc64 (e ∙ ap pos (omega arith)) ∙ inc64-pos k h
step-weight c disconnects b running met k h e = ap dec64 e ∙ dec64-pos k ∙ ap pos (omega arith)
step-weight c (binds user) b running met k h e = e
step-weight c _ b p st k h e = e

abbrev Weighs : ℕ → System → Type 0
Weighs n y = y.both.hybrid.conn_count ≡ pos (sum_below n (λ j. weight (y.place j).1))

advance-Weighs :
    (n c : ℕ) (i : Input) (y : System)
    → n ≤ max_int64
    → c < n
    → Weighs n y
    → Weighs n (advance c i y)
unfolding advance
advance-Weighs n c i y fits h e =
    count_step place_weight 1 n c y.both.hybrid.conn_count _ y.place _ (λ p. weight-le p.1)
      (omega arith) h
      (λ k below before. step-weight c i y.both (y.place c).0 (y.place c).1 k (omega arith) before)
      e

run-Weighs :
    (n : ℕ) (schedule : List (ℕ × Input)) (y : System)
    → n ≤ max_int64
    → All (λ e. e.0 < n) schedule
    → Weighs n y
    → Weighs n (run schedule y)
unfolding run
run-Weighs n [] y fits h e = e
run-Weighs n ((c, i) ∷ rest) y fits h e =
    run-Weighs n rest (advance c i y) fits h.1 (advance-Weighs n c i y fits h.0 e)

-- Whatever the interleaving of fewer than 2^63 handlers of the WebSocket server, and where each
-- change of the count is atomic, the connection count of the hybrid server is the number of
-- connections that are between `OnConnect` and `OnDisconnect` or that the user's handler has
-- refused.
run-weight :
    (n : ℕ) (schedule : List (ℕ × Input)) (s : WsServer.Server) (conf : HybridConf)
    (wt_created : Bool)
    → n ≤ max_int64
    → All (λ e. e.0 < n) schedule
    → let y = run schedule (start s (HybridServer.new_server conf wt_created)) in
      y.both.hybrid.conn_count ≡ pos (sum_below n (λ j. weight (y.place j).1))
unfolding HybridServer.new_server
run-weight n schedule s conf wt_created fits h =
    run-Weighs n schedule _ fits h (ap pos (sym (sum_below-zero n (λ j. 0) (λ j p. refl))))
