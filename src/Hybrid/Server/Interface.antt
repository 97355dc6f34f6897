-- ===== src/Hybrid/Server/Interface.antt =====
-- hybrid/server.go: the hybrid server keeps what the interface `Server` promises.
use go_wst.Prelude.{ℕ, ◌≡◌, refl, sym, ap, ◌∙◌, String, List, [], ◌∷◌, Option, none}
use go_wst.Prelude.Dict.{values, Distinct, lookup}
use go_wst.Registry.{UserIndex, IsIndex, conns_of, listed_conns, bound, In-conns_of}
use go_wst.Protocol.Auth.{protocol_web_socket}
use go_wst.Protocol.Server.{Servers, IsServer, sent, or_missing}
use go_wst.Protocol.Server.Uses.{found_or, broadcast_to_one}
use go_wst.Protocol.Server.Indexed.{each_of-listed_conns, looked_up, first_looked_up, In-values}
use go_wst.Ws.Server.{send_each}
use go_wst.Ws.Server as WsServer
use go_wst.Wt.Server as WtServer
use go_wst.Ws.Server.Delivery.{send_each-append}
use go_wst.Ws.Server.Interface.{
  visit_conns-visited, send_each-sent, web_socket_servers, web_socket_servers-IsServer,
}
use go_wst.Wt.Server.Interface.{web_transport_servers, web_transport_servers-IsServer}
use go_wst.Hybrid.Server.{Server}
use go_wst.Hybrid.Server.Sending.{
  broadcast, send_users, broadcast_to, send_to, get_connection, get_connections, connection_count,
  for_each_connection,
}

module _ {S E : Type 0} (send : ℕ → S → S × Option E) (not_found : E) where
  send_users-listed_conns :
      (index : UserIndex) (users : List String) (st : S) (last : Option E)
      → send_users send index users st last ≡ send_each send (listed_conns index users) st last
  unfolding send_users listed_conns send_each
  send_users-listed_conns index [] st last = refl
  send_users-listed_conns index (u ∷ us) st last =
      send_users-listed_conns index us _ _
      ∙ sym (send_each-append send (conns_of u index) (listed_conns index us) st last)

  -- `Protocol()` of the hybrid server answers WebSocket.
  unfoldable pub hybrid_servers : Servers Server S E
  unfolding broadcast broadcast_to send_to get_connection get_connections connection_count
      for_each_connection
  hybrid_servers = record {
    broadcast = broadcast send;
    broadcast_to = broadcast_to send;
    send_to = send_to send not_found;
    get_connection = get_connection;
    get_connections = get_connections;
    connection_count = connection_count;
    for_each_connection = for_each_connection;
    protocol = protocol_web_socket;
  }

  pub hybrid_servers-IsServer :
      IsServer hybrid_servers send not_found
        (λ s id. lookup id s.connections)
        (λ s u id. bound u id s.user_conns)
        (λ s. Distinct s.connections × IsIndex s.user_conns)
  unfolding hybrid_servers broadcast broadcast_to send_to get_connection get_connections
      for_each_connection
  hybrid_servers-IsServer = record {
    all = λ s. values s.connections;
    of_user = λ s u. conns_of u s.user_conns;
    all_iff = λ s c valid. In-values s.connections c valid.0;
    of_user_iff = λ s u c valid. In-conns_of u c s.user_conns valid.1;
    broadcast_lem = λ s st. send_each-sent send (values s.connections) st none;
    broadcast_to_lem = λ s us st.
        send_users-listed_conns s.user_conns us st none
        ∙ send_each-sent send (listed_conns s.user_conns us) st none
        ∙ ap (λ cs. sent send cs st) (each_of-listed_conns s.user_conns us);
    send_to_lem = λ s u st valid.
        looked_up s.user_conns u st not_found (λ cs. send_each send cs st none) valid.1
        ∙ ap (or_missing not_found st (conns_of u s.user_conns))
            (send_each-sent send (conns_of u s.user_conns) st none);
    get_connection_lem = λ s u. first_looked_up s.user_conns u;
    get_connections_lem = λ s us. each_of-listed_conns s.user_conns us;
    for_each_connection_lem = λ fn s st. visit_conns-visited fn (values s.connections) st;
  }

-- Each of the three servers does what the interface promises, in every state in which the IDs of its
-- connections differ and its user index is valid: a list of just the connections that it has by ID,
-- and one of just those that the user index has for each user, are such that its operations list,
-- visit and send to these and no others, in one order, keep the last error, and answer that a user
-- is not found just when it has none.
pub IsServer_lem :
    {S E : Type 0} (send : ℕ → S → S × Option E) (not_found : E)
    → IsServer
        (web_socket_servers send not_found)
        send
        not_found
        (λ s id. lookup id s.connections)
        (λ s u id. bound u id s.user_conns)
        (λ s. Distinct s.connections × IsIndex s.user_conns)
      × IsServer
          (web_transport_servers send not_found)
          send
          not_found
          (λ s id. lookup id s.connections)
          (λ s u id. bound u id s.user_conns)
          (λ s. Distinct s.connections × IsIndex s.user_conns)
      × IsServer
          (hybrid_servers send not_found)
          send
          not_found
          (λ s id. lookup id s.connections)
          (λ s u id. bound u id s.user_conns)
          (λ s. Distinct s.connections × IsIndex s.user_conns)
IsServer_lem send not_found = (
  web_socket_servers-IsServer send not_found,
  web_transport_servers-IsServer send not_found,
  hybrid_servers-IsServer send not_found,
)

-- `SendTo` of each of the three servers, in a state in which the IDs of its connections differ and its
-- user index is valid, is `BroadcastTo` that one user, unless `GetConnection` finds no connection:
-- then it sends nothing, and answers that the user is not found.
pub send_to-broadcast_to :
    {S E : Type 0} (send : ℕ → S → S × Option E) (not_found : E) (ws : WsServer.Server)
    (wt : WtServer.Server) (h : Server) (u : String) (st : S)
    → Distinct ws.connections × IsIndex ws.user_conns
    → Distinct wt.connections × IsIndex wt.user_conns
    → Distinct h.connections × IsIndex h.user_conns
    → (WsServer.send_to send not_found ws u st
        ≡ found_or not_found st
            (WsServer.get_connection ws u)
            (WsServer.broadcast_to send ws (u ∷ []) st))
      × (WtServer.send_to send not_found wt u st
          ≡ found_or not_found st
              (WtServer.get_connection wt u)
              (WtServer.broadcast_to send wt (u ∷ []) st))
      × (send_to send not_found h u st
          ≡ found_or not_found st (get_connection h u) (broadcast_to send h (u ∷ []) st))
unfolding web_socket_servers web_transport_servers hybrid_servers
send_to-broadcast_to send not_found ws wt h u st valid_ws valid_wt valid_h = (
  broadcast_to_one (web_socket_servers send not_found) send not_found _ _ _
      (web_socket_servers-IsServer send not_found) ws u st valid_ws,
  broadcast_to_one (web_transport_servers send not_found) send not_found _ _ _
      (web_transport_servers-IsServer send not_found) wt u st valid_wt,
  broadcast_to_one (hybrid_servers send not_found) send not_found _ _ _
      (hybrid_servers-IsServer send not_found) h u st valid_h,
)
