-- ===== src/Hybrid/Life.antt =====
-- hybrid/server.go, `Start` and `Stop`, over those of ws/server.go and wt/server.go. The service group
-- of go-zero is the list of the services that were added; in which order it stops them is an argument.
-- `httpServer` is never set, so `Stop` has nothing to close there.
pub mod Laws
use go_wst.Prelude.{ℕ, String, List, [], ◌∷◌, ◌++◌, Option, none, some, Bool, true, if◌then◌else◌}
use go_wst.Prelude.Go.{Go, returns, panics, ◌>>=◌, close_channel}
use go_wst.Ws.Life as WsLife
use go_wst.Wt.Handler.{Input}
use go_wst.Wt.Config.{Os}
use go_wst.Wt.Stop as WtStop

pub data Service : Type 0 where
  web_socket web_transport : Service

-- The servers, the group, whether `done` is closed and whether `once` has run.
pub record Life (F T : Type 0) : Type 0 where
  pub ws : WsLife.Life
  pub wt : Option (WtStop.Life F T)
  pub group : List Service
  pub done : Bool
  pub once : Bool

module _ {F T : Type 0} where
  abbrev wt_service : Option (WtStop.Life F T) → List Service
  wt_service none = []
  wt_service (some w) = web_transport ∷ []

  -- Its calls of `Add`; `s.group.Start()` then starts each service in a goroutine of its own.
  unfoldable pub start : Life F T → Life F T
  start l = record l { group = l.group ++ web_socket ∷ wt_service l.wt }

  -- The goroutine of the WebSocket server gets to its `Start`.
  unfoldable pub ws_starts : (String → Bool) → WsLife.Listening → Bool → Life F T → Go (Life F T)
  unfolding WsLife.start
  ws_starts takes conf binds l = do
    w ← WsLife.start takes conf binds l.ws
    returns (record l { ws = w })

  module _ (os : Os F) (close_transport : T → T) (wait : WtStop.Wait)
      (during : List (ℕ × Input)) where
    unfoldable pub stop_wt : Option (WtStop.Life F T) → Go (Option (WtStop.Life F T))
    unfolding WtStop.stop
    stop_wt none = returns none
    stop_wt (some w) = do w' ← WtStop.stop os close_transport wait during w; returns (some w')

    unfoldable pub stop_each : List Service → Life F T → Go (Life F T)
    unfolding WsLife.stop stop_wt
    stop_each [] l = returns l
    stop_each (web_socket ∷ services) l = do
      w ← WsLife.stop l.ws
      stop_each services (record l { ws = w })
    stop_each (web_transport ∷ services) l = do
      w ← stop_wt l.wt
      stop_each services (record l { wt = w })

    -- The function that `once` runs; `order` is that in which the group stops its services.
    stop_once : (List Service → List Service) → Life F T → Go Bool → Go (Life F T)
    unfolding stop_each
    stop_once order l panics = panics
    stop_once order l (returns d) = stop_each (order l.group) (record l { done = d; once = true })

    unfoldable pub stop : (List Service → List Service) → Life F T → Go (Life F T)
    unfolding close_channel stop_once
    stop order l = if l.once then returns l else stop_once order l (close_channel l.done)
