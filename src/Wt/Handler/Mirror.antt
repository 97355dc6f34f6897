-- ===== src/Wt/Handler/Mirror.antt =====
-- wt/server.go: the map of connections over all schedules of the handlers.
use go_wst.Prelude.{ℕ, ◌≡◌, ◌↔◌, String, List, [], ◌∷◌, some, Option, Bool, true, All}
use mathlib.Core.Bool.{false≢true}
use go_wst.Registry.{Mirrors, after-Mirrors, Mirrors-iff}
use go_wst.Prelude.Int.{ℤ}
use go_wst.Prelude.Dict.{lookup}
use go_wst.Wt.Connection.{Connection}
use go_wst.Wt.Server.{new_server}
use go_wst.Wt.Handler.{Input, System, advance, run, start}
use go_wst.Wt.Handler.Listed.{is_listed, Names, view, step-Change, step-Naming}

module _ (ids : ℕ → String) (apart : (c d : ℕ) → ids c ≡ ids d → c ≡ d) where
  advance-Mirrors :
      (c : ℕ) (i : Input) (y : System)
      → Names ids (c, i)
      → Mirrors view ids y.server y.phase
      → Mirrors view ids (advance c i y).server (advance c i y).phase
  unfolding advance
  advance-Mirrors c i y n m =
      after-Mirrors view ids apart c y.server _ y.phase _ m
        (step-Naming ids c i y.server (y.phase c) n) (step-Change c i y.server (y.phase c))

  pub run-Mirrors :
      (schedule : List (ℕ × Input)) (y : System)
      → All (Names ids) schedule
      → Mirrors view ids y.server y.phase
      → Mirrors view ids (run schedule y).server (run schedule y).phase
  unfolding run
  run-Mirrors [] y n m = m
  run-Mirrors ((c, i) ∷ rest) y n m =
      run-Mirrors rest (advance c i y) n.1 (advance-Mirrors c i y n.0 m)

  pub start-Mirrors :
      (max_connections timeout : ℤ) (auth : Bool) (session_error : ℕ → Option String)
      (conns : ℕ → Connection)
      → let y = start (new_server max_connections auth timeout session_error conns) in
        Mirrors view ids y.server y.phase
  unfolding new_server lookup
  start-Mirrors max_connections timeout auth session_error conns = record {
    names = λ d o. absurd (false≢true o);
    sound = λ j d h. absurd (cc);
    complete = λ d h. absurd (false≢true h);
  }

  -- Where no two connections get the same ID, whatever the interleaving, the map of connections
  -- of the WebTransport server finds a connection exactly while its handler is between registering and unregistering it.
  run-served_iff :
      (schedule : List (ℕ × Input)) (max_connections timeout : ℤ) (auth : Bool)
      (session_error : ℕ → Option String) (conns : ℕ → Connection) (j : String) (d : ℕ)
      → All (Names ids) schedule
      → let y =
          run schedule (start (new_server max_connections auth timeout session_error conns)) in
        (lookup j y.server.connections ≡ some d) ↔ ((is_listed (y.phase d) ≡ true) × (ids d ≡ j))
  unfolding new_server
  run-served_iff schedule max_connections timeout auth session_error conns j d n =
      Mirrors-iff view ids _ _ j d
        (run-Mirrors schedule _ n (start-Mirrors max_connections timeout auth session_error conns))
