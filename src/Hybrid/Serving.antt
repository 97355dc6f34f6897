-- ===== src/Hybrid/Serving.antt =====
-- hybrid/server.go over ws/server.go: the hybrid server is the handler of the WebSocket server. A
-- thread is a run of `HandleWebSocket`, whose calls of `OnConnect` and `OnDisconnect` go to
-- `hybridWsHandler`.
pub mod Steps
pub mod Registered
pub mod Counted
use go_wst.Prelude.{ℕ, String, List, [], ◌∷◌, none, Bool, true, false, if◌then◌else◌, ◌==◌}
use go_wst.Ws.Server.{id_of, user_of, write_conn}
use go_wst.Ws.Server as WsServer
use go_wst.Ws.Connection.{set_user_id}
use go_wst.Ws.Handler.{Phase, waiting, listed, running, connects, pumps_end}
use go_wst.Ws.Handler
use go_wst.Hybrid.Server.{ws_on_connect, on_disconnect, bind_user}
use go_wst.Hybrid.Server as HybridServer

-- Where a connection stands with the hybrid server: `OnConnect` has not registered it yet, has, and
-- the user's handler has refused it after that, or `OnDisconnect` has unregistered it.
pub data Stage : Type 0 where
  unmet met refused left : Stage

-- A step of `HandleWebSocket`; the part of `OnConnect` before the user's handler is called, whose
-- answer is the step `connects`; `OnDisconnect`, which the end of the read pump calls; and
-- `BindUser`, which the user's handler calls.
pub data Input : Type 0 where
  goes_on : Handler.Input → Input
  meets : Input
  disconnects : Input
  binds : String → Input

pub record Both : Type 0 where
  pub web : WsServer.Server
  pub hybrid : HybridServer.Server

-- The user's handler answers after the registration, and the pumps end after `OnDisconnect`.
unfoldable pub proceeds : Handler.Input → Phase → Stage → Bool
proceeds (connects _) listed met = true
proceeds (connects _) listed _ = false
proceeds pumps_end running left = true
proceeds pumps_end running _ = false
proceeds _ _ _ = true

-- A refusal by the user's handler, of a connection that the hybrid server has registered.
unfoldable pub stage_after : Stage → Handler.Input → Phase → Stage
stage_after met (connects false) listed = refused
stage_after st _ _ = st

web_step : ℕ → Handler.Input → Both → Phase → Stage → Both × (Phase × Stage)
unfolding stage_after
web_step c i b p st =
    let (s, q) = Handler.step c i b.web p in (record b { web = s }, (q, stage_after st i p))

-- An input that the thread does not wait for changes nothing.
unfoldable pub step : ℕ → Input → Both → Phase → Stage → Both × (Phase × Stage)
unfolding proceeds web_step
step c (goes_on i) b p st = if proceeds i p st then web_step c i b p st else (b, (p, st))
step c meets b listed unmet =
    (record b { hybrid = (ws_on_connect (id_of b.web) none c b.hybrid).0 }, (listed, met))
step c disconnects b running met = (
  record b { hybrid = on_disconnect (id_of b.web) (user_of b.web c) c b.hybrid },
  (running, left),
)
step c (binds user) b running met = (
  record {
    web = write_conn c (set_user_id user (b.web.conns c)) b.web;
    hybrid = (bind_user (id_of b.web) c user b.hybrid (user_of b.web)).0;
  },
  (running, met),
)
step c _ b p st = (b, (p, st))

pub record System : Type 0 where
  pub both : Both
  pub place : ℕ → Phase × Stage

unfoldable pub advance : ℕ → Input → System → System
advance c i y =
    let (b, p) = step c i y.both (y.place c).0 (y.place c).1 in
    record { both = b; place = λ d. if d == c then p else y.place d }

unfoldable pub run : List (ℕ × Input) → System → System
unfolding advance
run [] y = y
run ((c, i) ∷ rest) y = run rest (advance c i y)

abbrev pub start : WsServer.Server → HybridServer.Server → System
start s h = record { both = record { web = s; hybrid = h }; place = λ _. (waiting, unmet) }
