-- ===== src/Wt/Server/Interface.antt =====
-- wt/server.go: the WebTransport server keeps what the interface `Server` promises.
use go_wst.Prelude.{
  ℕ, ◌≡◌, refl, sym, ap, ◌∙◌, String, List, [], ◌∷◌, ◌++◌, Option, none, some, Bool, Option-cases,
  Bool-cases, inl, inr,
}
use go_wst.Prelude.Dict.{values, Distinct, lookup}
use go_wst.Registry.{IsIndex, conns_of, bound, In-conns_of}
use go_wst.Protocol.Auth.{protocol_web_transport}
use go_wst.Protocol.Server.{
  Servers, IsServer, after_sends, errors, last_or, sent, visited, each_of, or_missing,
}
use go_wst.Protocol.Server.Indexed.{looked_up, first_looked_up, In-values}
use go_wst.Wt.Server.{
  Server, send_each, send_users, broadcast, broadcast_to, send_to, get_connection, get_connections,
  connection_count, visit_conns, for_each_connection,
}

visit_conns-visited :
    {S : Type 0} (fn : ℕ → S → S × Bool) (cs : List ℕ) (st : S)
    → visit_conns fn cs st ≡ visited fn cs st
unfolding visit_conns
visit_conns-visited fn [] st = refl
visit_conns-visited fn (c ∷ cs) st = elim (Bool-cases (fn c st).1) [
  | inl more ↦ rw more (visit_conns-visited fn cs (fn c st).0)
  | inr enough ↦ rw enough refl
]

get_connections-each_of :
    (s : Server) (us : List String)
    → get_connections s us ≡ each_of (λ u. conns_of u s.user_conns) us
unfolding get_connections
get_connections-each_of s [] = refl
get_connections-each_of s (u ∷ us) =
    ap (λ cs. conns_of u s.user_conns ++ cs) (get_connections-each_of s us)

module _ {S E : Type 0} (send : ℕ → S → S × Option E) (not_found : E) where
  send_each-sent :
      (cs : List ℕ) (st : S) (last : Option E)
      → send_each send cs st last ≡ (after_sends send cs st, last_or last (errors send cs st))
  unfolding send_each
  send_each-sent [] st last = refl
  send_each-sent (c ∷ cs) st last = elim (Option-cases (send c st).1) [
    | inl fine ↦ rw fine (send_each-sent cs (send c st).0 last)
    | inr (e, failed) ↦ rw failed (send_each-sent cs (send c st).0 (some e))
  ]

  send_each-append :
      (xs ys : List ℕ) (st : S) (last : Option E)
      → send_each send (xs ++ ys) st last
        ≡ send_each send ys (send_each send xs st last).0 (send_each send xs st last).1
  unfolding send_each
  send_each-append [] ys st last = refl
  send_each-append (x ∷ xs) ys st last = send_each-append xs ys _ _

  send_users-get_connections :
      (s : Server) (users : List String) (st : S) (last : Option E)
      → send_users send s users st last ≡ send_each send (get_connections s users) st last
  unfolding send_users get_connections send_each
  send_users-get_connections s [] st last = refl
  send_users-get_connections s (u ∷ us) st last =
      send_users-get_connections s us _ _
      ∙ sym (send_each-append (conns_of u s.user_conns) (get_connections s us) st last)

  unfoldable pub web_transport_servers : Servers Server S E
  unfolding broadcast broadcast_to send_to get_connection get_connections connection_count
      for_each_connection
  web_transport_servers = record {
    broadcast = broadcast send;
    broadcast_to = broadcast_to send;
    send_to = send_to send not_found;
    get_connection = get_connection;
    get_connections = get_connections;
    connection_count = connection_count;
    for_each_connection = for_each_connection;
    protocol = protocol_web_transport;
  }

  pub web_transport_servers-IsServer :
      IsServer web_transport_servers send not_found
        (λ s id. lookup id s.connections)
        (λ s u id. bound u id s.user_conns)
        (λ s. Distinct s.connections × IsIndex s.user_conns)
  unfolding web_transport_servers broadcast broadcast_to send_to get_connection for_each_connection
  web_transport_servers-IsServer = record {
    all = λ s. values s.connections;
    of_user = λ s u. conns_of u s.user_conns;
    all_iff = λ s c valid. In-values s.connections c valid.0;
    of_user_iff = λ s u c valid. In-conns_of u c s.user_conns valid.1;
    broadcast_lem = λ s st. send_each-sent (values s.connections) st none;
    broadcast_to_lem = λ s us st.
        send_users-get_connections s us st none
        ∙ send_each-sent (get_connections s us) st none
        ∙ ap (λ cs. sent send cs st) (get_connections-each_of s us);
    send_to_lem = λ s u st valid.
        looked_up s.user_conns u st not_found (λ cs. send_each send cs st none) valid.1
        ∙ ap (or_missing not_found st (conns_of u s.user_conns))
            (send_each-sent (conns_of u s.user_conns) st none);
    get_connection_lem = λ s u. first_looked_up s.user_conns u;
    get_connections_lem = λ s us. get_connections-each_of s us;
    for_each_connection_lem = λ fn s st. visit_conns-visited fn (values s.connections) st;
  }
