-- ===== src/Tests/WebTransport.antt =====
-- wt/: the theorems at concrete inputs.
use go_wst.Prelude.{ℕ, ◌<◌, ◌≡◌, List, [], ◌∷◌, none, true, false, arith, All}
use go_wst.Prelude.Int.{pos}
use go_wst.Prelude.Sums.{sum_below}
use go_wst.Prelude.Result.{ok}
use go_wst.Wt.Connection.{Connection, new_connection}
use go_wst.Wt.Server.{Server, new_server}
use go_wst.Wt.Handler.{
  Input, requests, upgrades, authenticates, connects, streams_end, goes, run, start,
}
use go_wst.Wt.Handler.Count.{share, run-new_server-share}

abbrev fresh : Connection
fresh = new_connection "a" (pos 10)

-- One connection from its request to its end.
abbrev schedule : List (ℕ × Input)
schedule =
    (0, requests)
    ∷ (0, upgrades true "a")
    ∷ (0, authenticates (ok "u"))
    ∷ (0, goes)
    ∷ (0, goes)
    ∷ (0, goes)
    ∷ (0, connects true)
    ∷ (0, streams_end)
    ∷ (0, goes)
    ∷ (0, goes)
    ∷ (0, goes)
    ∷ []

abbrev served : Server
served = new_server (pos 1) false (pos 10) (λ _. none) (λ _. fresh)

below : All (λ e. e.0 < 1) schedule
below = (
  omega arith,
  (
    omega arith,
    (
      omega arith,
      (
        omega arith,
        (
          omega arith,
          (
            omega arith,
            (omega arith, (omega arith, (omega arith, (omega arith, (omega arith, tt))))),
          ),
        ),
      ),
    ),
  ),
)

run-new_server-share_example :
    (run schedule (start served)).server.conn_count
    ≡ pos (sum_below 1 (λ j. share ((run schedule (start served)).phase j)))
run-new_server-share_example =
    run-new_server-share 1 schedule (pos 1) (pos 10) false (λ _. none) (λ _. fresh) (omega arith)
      below
