-- ===== src/Ws/Server/Interface.antt =====
-- ws/server.go: the WebSocket server keeps what the interface `Server` promises.
use go_wst.Prelude.{
  ℕ, ◌≡◌, refl, ap, ◌∙◌, List, [], ◌∷◌, Option, none, some, Bool, Option-cases, Bool-cases, inl,
  inr,
}
use go_wst.Prelude.Dict.{values, Distinct, lookup}
use go_wst.Registry.{IsIndex, conns_of, listed_conns, bound, In-conns_of}
use go_wst.Protocol.Auth.{protocol_web_socket}
use go_wst.Protocol.Server.{
  Servers, IsServer, after_sends, errors, last_or, sent, visited, or_missing,
}
use go_wst.Protocol.Server.Indexed.{each_of-listed_conns, looked_up, first_looked_up, In-values}
use go_wst.Ws.Server.{
  Server, send_each, broadcast, broadcast_to, send_to, get_connection, get_connections,
  connection_count, visit_conns, for_each_connection,
}
use go_wst.Ws.Server.Delivery.{broadcast_to-get_connections}

pub visit_conns-visited :
    {S : Type 0} (fn : ℕ → S → S × Bool) (cs : List ℕ) (st : S)
    → visit_conns fn cs st ≡ visited fn cs st
unfolding visit_conns
visit_conns-visited fn [] st = refl
visit_conns-visited fn (c ∷ cs) st = elim (Bool-cases (fn c st).1) [
  | inl more ↦ rw more (visit_conns-visited fn cs (fn c st).0)
  | inr enough ↦ rw enough refl
]

module _ {S E : Type 0} (send : ℕ → S → S × Option E) where
  pub send_each-sent :
      (cs : List ℕ) (st : S) (last : Option E)
      → send_each send cs st last ≡ (after_sends send cs st, last_or last (errors send cs st))
  unfolding send_each
  send_each-sent [] st last = refl
  send_each-sent (c ∷ cs) st last = elim (Option-cases (send c st).1) [
    | inl fine ↦ rw fine (send_each-sent cs (send c st).0 last)
    | inr (e, failed) ↦ rw failed (send_each-sent cs (send c st).0 (some e))
  ]

module _ {S E : Type 0} (send : ℕ → S → S × Option E) (not_found : E) where
  unfoldable pub web_socket_servers : Servers Server S E
  unfolding broadcast broadcast_to send_to get_connection get_connections connection_count
      for_each_connection
  web_socket_servers = record {
    broadcast = broadcast send;
    broadcast_to = broadcast_to send;
    send_to = send_to send not_found;
    get_connection = get_connection;
    get_connections = get_connections;
    connection_count = connection_count;
    for_each_connection = for_each_connection;
    protocol = protocol_web_socket;
  }

  pub web_socket_servers-IsServer :
      IsServer web_socket_servers send not_found
        (λ s id. lookup id s.connections)
        (λ s u id. bound u id s.user_conns)
        (λ s. Distinct s.connections × IsIndex s.user_conns)
  unfolding web_socket_servers broadcast send_to get_connection get_connections for_each_connection
  web_socket_servers-IsServer = record {
    all = λ s. values s.connections;
    of_user = λ s u. conns_of u s.user_conns;
    all_iff = λ s c valid. In-values s.connections c valid.0;
    of_user_iff = λ s u c valid. In-conns_of u c s.user_conns valid.1;
    broadcast_lem = λ s st. send_each-sent send (values s.connections) st none;
    broadcast_to_lem = λ s us st.
        broadcast_to-get_connections send s us st
        ∙ send_each-sent send (listed_conns s.user_conns us) st none
        ∙ ap (λ cs. sent send cs st) (each_of-listed_conns s.user_conns us);
    send_to_lem = λ s u st valid.
        looked_up s.user_conns u st not_found (λ cs. send_each send cs st none) valid.1
        ∙ ap (or_missing not_found st (conns_of u s.user_conns))
            (send_each-sent send (conns_of u s.user_conns) st none);
    get_connection_lem = λ s u. first_looked_up s.user_conns u;
    get_connections_lem = λ s us. each_of-listed_conns s.user_conns us;
    for_each_connection_lem = λ fn s st. visit_conns-visited fn (values s.connections) st;
  }
