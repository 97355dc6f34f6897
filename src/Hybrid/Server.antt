-- ===== src/Hybrid/Server.antt =====
-- hybrid/server.go: the registries of the server that stands over the other two, the handlers that
-- it puts between them and the user's handler, and the negotiation. A connection is a pointer; its
-- ID is a function of the pointer and its user is state beside the server.
pub mod Laws
pub mod Sending
pub mod Interface
use Prim.Native.String.{◌++◌ as text_append}
use go_wst.Prelude.{
  ℕ, String, str_eq, List, [], ◌∷◌, Option, none, some, Bool, true, if◌then◌else◌, ◌==◌, not, ◌&&◌,
}
use go_wst.Prelude.Int.{ℤ, pos, inc64, dec64}
use go_wst.Prelude.Dict.{Dict, insert, delete}
use go_wst.Registry.{UserIndex, bind, unbind}
use go_wst.Protocol.Auth.{protocol_web_socket, protocol_web_transport}
use go_wst.Hybrid.Config.{HybridConf, set_up, ClientHello, ServerHello, ProtocolInfo}
use go_wst.Hybrid.Authenticator.{HybridAuthenticator}
use go_wst.Hybrid.Fallback.{
  FallbackManager, new_fallback_manager, select_protocol, record_connection,
}

-- Whether there is a WebTransport server stands in the manager, which `NewServer` sets with it.
pub record Server : Type 0 where
  pub conf : HybridConf
  pub fallback : FallbackManager
  pub connections : Dict ℕ
  pub user_conns : UserIndex
  pub conn_count : ℤ

-- `NewServer`, past the options; `wt_created` tells whether a certificate is configured and
-- `wt.NewServer` succeeds.
unfoldable pub new_server : HybridConf → Bool → Server
new_server given wt_created =
    let conf = set_up given in
    record {
      conf = conf;
      fallback =
          new_fallback_manager conf (not (str_eq conf.protocol protocol_web_socket) && wt_created);
      connections = [];
      user_conns = [];
      conn_count = pos 0;
    }

-- The authenticator of a server that is given none.
unfoldable pub default_authenticator : HybridConf → Option HybridAuthenticator
default_authenticator conf =
    if conf.auth.enabled
    then some (record {
      ws_config = record { source = "envoy-header"; header_name = conf.auth.ws_header_name };
      wt_config = record {
        token_source = conf.auth.wt_token_source;
        token_name = conf.auth.wt_token_name;
        jwt_secret = conf.auth.wt_jwt_secret;
      };
    })
    else none

module _ (id : ℕ → String) where
  unfoldable pub register_connection : ℕ → Server → Server
  register_connection c s = record s {
    connections = insert (id c) c s.connections;
    conn_count = inc64 s.conn_count;
  }

  -- `user` is what `conn.UserID()` returns at the call.
  unfoldable pub unregister_connection : String → ℕ → Server → Server
  unregister_connection user c s = record s {
    connections = delete (id c) s.connections;
    user_conns = if str_eq user "" then s.user_conns else unbind user (id c) s.user_conns;
    conn_count = dec64 s.conn_count;
  }

  -- The server and the users that the connections carry.
  unfoldable pub bind_user : ℕ → String → Server → (ℕ → String) → Server × (ℕ → String)
  bind_user c user s users = (
    record s { user_conns = bind user (id c) c s.user_conns },
    λ d. if d == c then user else users d,
  )

  -- `hybridWsHandler` and `hybridWtHandler` differ in the protocol that they record; `answer` is
  -- what the user's `OnConnect` returns.
  unfoldable pub on_connect : String → Option String → ℕ → Server → Server × Option String
  unfolding register_connection
  on_connect proto answer c s =
      let s' = register_connection c s in
      (record s' { fallback = record_connection proto s'.fallback }, answer)

  unfoldable pub ws_on_connect : Option String → ℕ → Server → Server × Option String
  unfolding on_connect
  ws_on_connect answer c s = on_connect protocol_web_socket answer c s

  unfoldable pub wt_on_connect : Option String → ℕ → Server → Server × Option String
  unfolding on_connect
  wt_on_connect answer c s = on_connect protocol_web_transport answer c s

  -- Before it calls the user's `OnDisconnect`.
  unfoldable pub on_disconnect : String → ℕ → Server → Server
  unfolding unregister_connection
  on_disconnect user c s = unregister_connection user c s

-- A request that is not JSON of a hello is refused. The two identifiers come from the clock, `host`
-- from the request.
unfoldable pub handle_negotiate :
    String → String → String → Option ClientHello → Server → Option ServerHello
handle_negotiate server_id session_id host none s = none
handle_negotiate server_id session_id host (some hello) s = some (record {
  protocol = select_protocol s.fallback hello;
  version = "1.0";
  server_id = server_id;
  session_id = session_id;
  fallback_url = text_append (text_append "ws://" host) s.conf.ws.path;
})

unfoldable pub get_protocol_info : Server → List ProtocolInfo
get_protocol_info s =
    let web_socket : ProtocolInfo = record {
      protocol = protocol_web_socket;
      available = true;
      addr = s.conf.ws.addr;
      path = s.conf.ws.path;
      priority = pos 1;
    } in
    let web_transport : ProtocolInfo = record {
      protocol = protocol_web_transport;
      available = true;
      addr = s.conf.wt.addr;
      path = s.conf.wt.path;
      priority = pos 2;
    } in
    if s.fallback.has_wt_server then web_socket ∷ web_transport ∷ [] else web_socket ∷ []
