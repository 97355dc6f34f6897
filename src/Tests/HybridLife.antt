-- ===== src/Tests/HybridLife.antt =====
-- hybrid/server.go, `Start` and `Stop`: the theorem at a concrete input.
use go_wst.Prelude.{
  ◌≡◌, refl, ◌⊎◌, inl, inr, ℕ, ◌+◌, String, List, [], ◌∷◌, some, Bool, true, false,
}
use go_wst.Prelude.Go.{returns, panics, ◌>>=◌}
use go_wst.Ws.Life as WsLife
use go_wst.Ws.Life.{shut}
use go_wst.Wt.Handler.{run}
use go_wst.Wt.Config.{cleanup}
use go_wst.Wt.Stop as WtStop
use go_wst.Wt.Stop.{serving, close_each}
use go_wst.Hybrid.Life.{Service, web_socket, web_transport, start, ws_starts, stop}
use go_wst.Hybrid.Life.Laws.{created, stop-start}
use go_wst.Tests.Certificates.{os, empty}
use go_wst.Tests.WsLife.{takes}
use go_wst.Tests.WtStop.{given, web, close_transport}

-- The group stops the last service first.
abbrev order : List Service → List Service
order (a ∷ b ∷ []) = b ∷ a ∷ []
order services = services

abbrev idle : WtStop.Life (String → Bool) ℕ
idle = serving [] web given empty 0

abbrev ended : WtStop.Life (String → Bool) ℕ
ended = record idle { transport = 1; done = true; once = true }

ends : WtStop.stop os close_transport WtStop.all_ended [] idle ≡ returns ended
unfolding WtStop.stop close_each cleanup go_wst.Wt.Server.new_server run go_wst.Prelude.Dict.values
ends = refl

abbrev conf : WsLife.Listening
conf = record { addr = ":8080"; path = "/ws"; cert_file = ""; key_file = "" }

stop-start_example :
    ((ws_starts takes conf true (start (created idle))
        >>= stop os close_transport WtStop.all_ended [] order)
      ≡ returns (record {
        ws = record { servers = shut ∷ []; done = true; once = true };
        wt = some ended;
        group = web_socket ∷ web_transport ∷ [];
        done = true;
        once = true;
      }))
    × (stop os close_transport WtStop.all_ended [] order (created idle)
        ≡ returns (record (created idle) { done = true; once = true }))
    × (stop os close_transport WtStop.all_ended [] order (start (created idle)) ≡ panics)
stop-start_example =
    stop-start os close_transport WtStop.all_ended [] order refl (inr refl) idle ended ends takes
      conf true refl
