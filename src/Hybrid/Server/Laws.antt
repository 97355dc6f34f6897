-- ===== src/Hybrid/Server/Laws.antt =====
-- hybrid/server.go: what stays in the registries when a connection comes and goes.
use go_wst.Prelude.{
  ℕ, ◌+◌, ◌<◌, ◌≡◌, refl, ap, ◌∙◌, String, str_eq, eq_iff, ◌&&◌, not, Option, none, some, true,
  if◌then◌else◌, arith, In, map, ◌≢◌, ◌⊎◌, inl, inr, Bool-cases,
}
use go_wst.Prelude.Int.{pos, inc64, dec64, inc64-pos, dec64-pos, max_int64}
use go_wst.Prelude.Dict.{lookup, insert, lookup-insert, lookup-delete}
use go_wst.Registry.{bound, bound-unbind}
use go_wst.Protocol.Auth.{protocol_web_socket, protocol_web_transport}
use go_wst.Hybrid.Config.{ClientHello, ServerHello}
use go_wst.Hybrid.Fallback.{FallbackManager, select_protocol, select_auto_protocol}
use go_wst.Hybrid.Fallback.Laws.{select_protocol_iff}
use go_wst.Hybrid.Server.{
  Server, register_connection, unregister_connection, on_connect, on_disconnect, handle_negotiate,
  get_protocol_info,
}

module _ (id : ℕ → String) (c n : ℕ) (s : Server) (small : n < max_int64)
    (counted : s.conn_count ≡ pos n) where
  -- `OnConnect` of the hybrid server registers and counts the connection and passes the answer of
  -- the user's handler on; it does so also where that refuses, and nothing takes it back.
  on_connect_lem :
      (proto : String) (answer : Option String)
      → ((on_connect id proto answer c s).1 ≡ answer)
        × ((on_connect id proto answer c s).0.conn_count ≡ pos (n + 1))
        × ((j : String)
            → lookup j (on_connect id proto answer c s).0.connections
              ≡ (if str_eq (id c) j then some c else lookup j s.connections))
        × ((on_connect id proto answer c s).0.user_conns ≡ s.user_conns)
  unfolding on_connect register_connection
  on_connect_lem proto answer = (
    refl,
    ap inc64 counted ∙ inc64-pos n small,
    (λ j. lookup-insert (id c) j c s.connections),
    refl,
  )

  -- `OnDisconnect` undoes `OnConnect` for a connection whose ID was free: the count and the map are
  -- as before, and the connection is not bound to the user that it carries.
  on_disconnect-on_connect :
      (proto user : String) (answer : Option String)
      → lookup (id c) s.connections ≡ none
      → let t = on_disconnect id user c (on_connect id proto answer c s).0 in
        (t.conn_count ≡ pos n)
        × ((j : String) → lookup j t.connections ≡ lookup j s.connections)
        × ((u j : String)
            → bound u j t.user_conns ≡ (
                if not (str_eq user "") && (str_eq user u && str_eq (id c) j)
                then none
                else bound u j s.user_conns))
  unfolding on_connect register_connection on_disconnect unregister_connection
  on_disconnect-on_connect proto user answer free = (
    ap dec64 (ap inc64 counted ∙ inc64-pos n small) ∙ dec64-pos n,
    (λ j. ground (
      arith,
      lookup-delete (id c) j (insert (id c) c s.connections),
      lookup-insert (id c) j c s.connections,
      eq_iff (id c) j,
    )),
    (λ u j. ground (arith, bound-unbind user u (id c) j s.user_conns)),
  )

select_protocol_cases :
    (m : FallbackManager) (hello : ClientHello)
    → (select_protocol m hello ≡ protocol_web_socket)
      ⊎ (select_protocol m hello ≡ protocol_web_transport)
unfolding select_protocol select_auto_protocol
select_protocol_cases m hello = ground arith

offers_web_socket :
    (s : Server) → In protocol_web_socket (map (λ i. i.protocol) (get_protocol_info s))
unfolding get_protocol_info
offers_web_socket s = elim (Bool-cases s.fallback.has_wt_server) [
  | inl e ↦ rw e (inl refl)
  | inr e ↦ rw e (inl refl)
]

offers_web_transport :
    (s : Server)
    → s.fallback.has_wt_server ≡ true
    → In protocol_web_transport (map (λ i. i.protocol) (get_protocol_info s))
unfolding get_protocol_info
offers_web_transport s e = rw e (inr (inl refl))

-- Unless the configuration forces WebTransport, every readable hello is answered with a protocol
-- that `GetProtocolInfo` lists.
handle_negotiate_offered :
    (server_id session_id host : String) (hello : ClientHello) (s : Server)
    → s.fallback.conf.protocol ≢ protocol_web_transport
    → (answer : ServerHello) × (handle_negotiate server_id session_id host (some hello) s
        ≡ some answer)
      × In answer.protocol (map (λ i. i.protocol) (get_protocol_info s))
unfolding handle_negotiate
handle_negotiate_offered server_id session_id host hello s free = (
  _,
  refl,
  elim (select_protocol_cases s.fallback hello) [
    | inl ws ↦ rw ws (offers_web_socket s)
    | inr wt ↦ rw wt (elim ((select_protocol_iff s.fallback hello).0 wt).1 [
      | inl forced ↦ absurd (free forced)
      | inr auto ↦ offers_web_transport s auto.1
    ])
  ],
)
