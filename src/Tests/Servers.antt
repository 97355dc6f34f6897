-- ===== src/Tests/Servers.antt =====
-- The interface of the servers: the theorems at concrete inputs.
use go_wst.Prelude.{
  ℕ, ◌≡◌, refl, String, List, [], ◌∷◌, ◌++◌, Option, none, some, true, false, if◌then◌else◌, ◌==◌,
}
use go_wst.Prelude.Int.{pos}
use go_wst.Prelude.Dict.{Dict, Distinct, lookup}
use go_wst.Registry.{UserIndex, IsIndex, bound, bind, bind-IsIndex}
use go_wst.Protocol.Server.{IsServer}
use go_wst.Protocol.Server.Uses.{found_or}
use go_wst.Ws.Server.Interface.{web_socket_servers}
use go_wst.Wt.Server.Interface.{web_transport_servers}
use go_wst.Ws.Server as WsServer
use go_wst.Ws.Connection as WsConnection
use go_wst.Wt.Server as WtServer
use go_wst.Wt.Connection as WtConnection
use go_wst.Hybrid.Server
use go_wst.Hybrid.Server.Sending.{send_to, get_connection, broadcast_to}
use go_wst.Hybrid.Server.Interface.{hybrid_servers, IsServer_lem, send_to-broadcast_to}
use go_wst.Tests.Hybrid.{bound_server}

-- The state is the list of the connections that got the message; the first one is closed.
abbrev send : ℕ → List ℕ → List ℕ × Option String
send c got = if c == 1 then (got, some "connection closed") else (got ++ c ∷ [], none)

-- A user index in which connection 4 is the user's, and a map with that connection.
abbrev index : UserIndex
index = bind "u" "a" 4 []

abbrev listing : Dict ℕ
listing = ("a", 4) ∷ []

abbrev ws_server : WsServer.Server
ws_server = record {
  max_connections = pos 0;
  auth_enabled = true;
  write_timeout = pos 10;
  write_fails = λ c. false;
  conns = λ c. WsConnection.new_connection "a" (pos 10);
  connections = listing;
  user_conns = index;
  conn_count = pos 1;
}

abbrev wt_server : WtServer.Server
wt_server = record {
  max_connections = pos 0;
  auth_enabled = true;
  write_timeout = pos 10;
  session_error = λ c. none;
  conns = λ c. WtConnection.new_connection "a" (pos 10);
  connections = listing;
  user_conns = index;
  conn_count = pos 1;
}

abbrev hybrid_server : Server.Server
hybrid_server = record bound_server { connections = listing; user_conns = index }

IsServer_lem_example :
    IsServer
      (web_socket_servers send "user not found")
      send
      "user not found"
      (λ s id. lookup id s.connections)
      (λ s u id. bound u id s.user_conns)
      (λ s. Distinct s.connections × IsIndex s.user_conns)
    × IsServer
        (web_transport_servers send "user not found")
        send
        "user not found"
        (λ s id. lookup id s.connections)
        (λ s u id. bound u id s.user_conns)
        (λ s. Distinct s.connections × IsIndex s.user_conns)
    × IsServer
        (hybrid_servers send "user not found")
        send
        "user not found"
        (λ s id. lookup id s.connections)
        (λ s u id. bound u id s.user_conns)
        (λ s. Distinct s.connections × IsIndex s.user_conns)
IsServer_lem_example = IsServer_lem send "user not found"

listing-Distinct : Distinct listing
unfolding lookup
listing-Distinct = (refl, tt)

index-IsIndex : IsIndex index
index-IsIndex = bind-IsIndex "u" "a" 4 [] (record { distinct = tt; inner = tt })

send_to-broadcast_to_example :
    (WsServer.send_to send "user not found" ws_server "u" []
      ≡ found_or "user not found" []
          (WsServer.get_connection ws_server "u")
          (WsServer.broadcast_to send ws_server ("u" ∷ []) []))
    × (WtServer.send_to send "user not found" wt_server "u" []
        ≡ found_or "user not found" []
            (WtServer.get_connection wt_server "u")
            (WtServer.broadcast_to send wt_server ("u" ∷ []) []))
    × (send_to send "user not found" hybrid_server "u" []
        ≡ found_or "user not found" []
            (get_connection hybrid_server "u")
            (broadcast_to send hybrid_server ("u" ∷ []) []))
send_to-broadcast_to_example =
    send_to-broadcast_to send "user not found" ws_server wt_server hybrid_server "u" []
      (listing-Distinct, index-IsIndex) (listing-Distinct, index-IsIndex)
      (listing-Distinct, index-IsIndex)
