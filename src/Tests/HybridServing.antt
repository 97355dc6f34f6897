-- ===== src/Tests/HybridServing.antt =====
-- hybrid/ over ws/: the theorems at concrete inputs.
use go_wst.Prelude.{
  ℕ, ◌≡◌, ◌↔◌, ◌⊎◌, ◌≢◌, if◌then◌else◌, ◌&&◌, not, str_eq, refl, String, List, [], ◌∷◌, none, some,
  true, false, All,
}
use go_wst.Prelude.Int.{pos}
use go_wst.Prelude.Dict.{lookup}
use go_wst.Prelude.Result.{ok}
use go_wst.Ws.Connection.{new_connection}
use go_wst.Ws.Server as WsServer
use go_wst.Ws.Handler.{
  requests, upgrades, authenticates, connects, pumps_end, goes, gone, listed, running,
}
use go_wst.Hybrid.Server as HybridServer
use go_wst.Hybrid.Serving.{met, refused, Input, goes_on, meets, disconnects, binds, run, start}
use go_wst.Hybrid.Serving.Steps.{Names}
use go_wst.Hybrid.Serving.Registered.{run-met_iff}
use go_wst.Ws.Server.{user_of}
use go_wst.Ws.Handler.{allowed}
use go_wst.Hybrid.Authenticator.{HttpRequest}
use go_wst.Hybrid.Settings.Handshake.{handled, step-web_settings}
use go_wst.Tests.Hybrid.{conf, parse, format_number}
use go_wst.Tests.WebSocket.{letters, letters_apart}

abbrev web : WsServer.Server
web = WsServer.new_server (pos 5) false (pos 10) (λ _. false) (λ _. new_connection "" (pos 10))

-- The user's handler refuses the first connection and serves the second one, which then ends.
abbrev schedule : List (ℕ × Input)
schedule =
    (0, goes_on requests)
    ∷ (1, goes_on requests)
    ∷ (0, goes_on (upgrades true (letters 0)))
    ∷ (1, goes_on (upgrades true (letters 1)))
    ∷ (1, goes_on (authenticates (ok "")))
    ∷ (0, goes_on (authenticates (ok "")))
    ∷ (0, goes_on goes)
    ∷ (1, goes_on goes)
    ∷ (1, meets)
    ∷ (0, meets)
    ∷ (0, goes_on (connects false))
    ∷ (1, goes_on (connects true))
    ∷ (1, binds "u")
    ∷ (0, goes_on goes)
    ∷ (0, goes_on goes)
    ∷ (0, goes_on goes)
    ∷ (1, disconnects)
    ∷ (1, goes_on pumps_end)
    ∷ []

named : All (Names letters) schedule
named = (
  tt,
  (
    tt,
    (
      refl,
      (
        refl,
        (tt, (tt, (tt, (tt, (tt, (tt, (tt, (tt, (tt, (tt, (tt, (tt, (tt, (tt, tt)))))))))))))),
      ),
    ),
  ),
)

over : ((run schedule (start web (HybridServer.new_server conf true))).place 0).0 ≡ gone
unfolding WsServer.new_server HybridServer.new_server run go_wst.Hybrid.Serving.step
    go_wst.Ws.Handler.step WsServer.at_limit WsServer.add_count WsServer.write_conn
over = refl

run-met_iff_example :
    let y = run schedule (start web (HybridServer.new_server conf true)) in
    (lookup (letters 0) y.both.hybrid.connections ≡ some 0) ↔ (
      (letters 0 ≡ letters 0)
      × (((y.place 0).1 ≡ refused)
          ⊎ (((y.place 0).1 ≡ met) × (((y.place 0).0 ≡ listed) ⊎ ((y.place 0).0 ≡ running)))))
run-met_iff_example = run-met_iff letters letters_apart schedule web conf true (letters 0) 0 named

abbrev named_request : HttpRequest
named_request = record { query = λ _. ""; header = λ _. "alice"; cookie = λ _. none }

-- The WebSocket server's own configuration leaves authentication off here.
step-web_settings_example :
    let t =
      handled parse format_number
        (λ (name : String). name)
        conf
        "web"
        []
        named_request
        refl
        refl
        0
        web in
    ((t.1 ≡ allowed) ↔ ((web.auth_enabled ≡ false) ⊎ (◌≢◌ {A = String} "alice" "")))
    × (user_of t.0 0
        ≡ (if web.auth_enabled && not (str_eq "alice" "") then "alice" else user_of web 0))
step-web_settings_example =
    step-web_settings parse format_number (λ (name : String). name) conf "web" [] named_request refl
      refl 0 web
