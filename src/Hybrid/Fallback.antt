-- ===== src/Hybrid/Fallback.antt =====
-- hybrid/fallback.go: the counts of failed clients, the choice of the protocol, and the statistics.
pub mod Laws
use go_wst.Prelude.{
  String, str_eq, [], Option, none, some, Bool, true, false, if◌then◌else◌, ltb, ◌&&◌, not,
}
use go_wst.Prelude.Int.{ℤ, pos, inc64, leb_ℤ}
use go_wst.Prelude.Dict.{Dict, lookup, insert, delete, size}
use go_wst.Protocol.Auth.{protocol_web_socket, protocol_web_transport}
use go_wst.Hybrid.Config.{
  HybridConf, ClientHello, protocol_auto, fallback_none, fallback_auto, fallback_error,
  fallback_timeout_strategy,
}

pub record FallbackStats : Type 0 where
  pub total_connections : ℤ
  pub web_socket_only : ℤ
  pub web_transport_only : ℤ
  pub web_transport_success : ℤ
  pub web_transport_failed : ℤ
  pub fallback_to_ws : ℤ

-- Of the two servers only whether there is a WebTransport server is read.
pub record FallbackManager : Type 0 where
  pub conf : HybridConf
  pub has_wt_server : Bool
  pub fallback_count : Dict ℤ
  pub stats : FallbackStats

unfoldable pub new_fallback_manager : HybridConf → Bool → FallbackManager
new_fallback_manager conf has_wt_server = record {
  conf = conf;
  has_wt_server = has_wt_server;
  fallback_count = [];
  stats = record {
    total_connections = pos 0;
    web_socket_only = pos 0;
    web_transport_only = pos 0;
    web_transport_success = pos 0;
    web_transport_failed = pos 0;
    fallback_to_ws = pos 0;
  };
}

-- `m.fallbackCount[clientID]`: a missing key reads as 0.
unfoldable pub count_of : String → Dict ℤ → ℤ
count_of client counts = elim (lookup client counts) [ none ↦ pos 0 | some n ↦ n ]

unfoldable pub select_auto_protocol : FallbackManager → ClientHello → String
unfolding count_of
select_auto_protocol m hello =
    if not hello.supports_wt
    then protocol_web_socket
    else if leb_ℤ m.conf.max_retries (count_of hello.client_id m.fallback_count)
    then protocol_web_socket
    else if m.has_wt_server
    then protocol_web_transport
    else protocol_web_socket

unfoldable pub select_protocol : FallbackManager → ClientHello → String
unfolding select_auto_protocol
select_protocol m hello =
    if str_eq m.conf.protocol protocol_web_socket
    then protocol_web_socket
    else if str_eq m.conf.protocol protocol_web_transport
    then if not hello.supports_wt then protocol_web_socket else protocol_web_transport
    else if str_eq m.conf.protocol protocol_auto
    then select_auto_protocol m hello
    else protocol_web_socket

-- `from` and `to` are protocols; `to` is only logged.
unfoldable pub record_fallback : String → String → FallbackManager → FallbackManager
unfolding count_of
record_fallback client from m =
    let counts = insert client (inc64 (count_of client m.fallback_count)) m.fallback_count in
    let stats = record m.stats { fallback_to_ws = inc64 m.stats.fallback_to_ws } in
    record m {
      fallback_count = counts;
      stats =
          if str_eq from protocol_web_transport
          then record stats { web_transport_failed = inc64 stats.web_transport_failed }
          else stats;
    }

unfoldable pub record_connection : String → FallbackManager → FallbackManager
record_connection proto m =
    let stats = record m.stats { total_connections = inc64 m.stats.total_connections } in
    record m {
      stats =
          if str_eq proto protocol_web_socket
          then record stats { web_socket_only = inc64 stats.web_socket_only }
          else if str_eq proto protocol_web_transport
          then record stats { web_transport_success = inc64 stats.web_transport_success }
          else stats;
    }

-- `cancelled` is `ctx.Err() != nil` at the call, `failed` is `err != nil`. Under the timeout
-- strategy both cases of the `select` answer true.
unfoldable pub should_fallback : Bool → Bool → FallbackManager → Bool
should_fallback cancelled failed m =
    if str_eq m.conf.fallback_strategy fallback_none
    then false
    else if cancelled
    then false
    else if str_eq m.conf.fallback_strategy fallback_auto
    then failed
    else if str_eq m.conf.fallback_strategy fallback_error
    then failed
    else if str_eq m.conf.fallback_strategy fallback_timeout_strategy
    then true
    else false

unfoldable pub reset_fallback_count : String → FallbackManager → FallbackManager
reset_fallback_count client m = record m { fallback_count = delete client m.fallback_count }

-- The age is not used.
unfoldable pub cleanup_stale_clients : FallbackManager → FallbackManager
cleanup_stale_clients m =
    if ltb 10000 (size m.fallback_count) then record m { fallback_count = [] } else m

-- `FallbackHandler`, before it calls the handler that it wraps: `on_connect` on the protocol of the
-- connection, `on_disconnect` on whether there is an error, the protocol and the user.
unfoldable pub on_connect : String → FallbackManager → FallbackManager
unfolding record_connection
on_connect proto m = record_connection proto m

unfoldable pub on_disconnect : Bool → String → String → FallbackManager → FallbackManager
unfolding record_fallback
on_disconnect failed proto user m =
    if failed && str_eq proto protocol_web_transport
    then if str_eq user "" then m else record_fallback user protocol_web_transport m
    else m
