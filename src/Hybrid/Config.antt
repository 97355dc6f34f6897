-- ===== src/Hybrid/Config.antt =====
-- hybrid/config.go: the configuration, its defaults, and the hello of a client.
use go_wst.Prelude.{String, str_eq, Bool, if◌then◌else◌}
use go_wst.Prelude.Int.{ℤ}

-- `Protocol` and `FallbackStrategy` are strings.
abbrev pub protocol_auto : String
protocol_auto = "auto"

abbrev pub fallback_none : String
fallback_none = "none"

abbrev pub fallback_auto : String
fallback_auto = "auto"

abbrev pub fallback_timeout_strategy : String
fallback_timeout_strategy = "timeout"

abbrev pub fallback_error : String
fallback_error = "error"

pub record AuthHybridConf : Type 0 where
  pub enabled : Bool
  pub ws_header_name : String
  pub wt_token_source : String
  pub wt_token_name : String
  pub wt_jwt_secret : String

-- Of `WsConf` and `WtConf`, what `SetUp` reads.
pub record Endpoint : Type 0 where
  pub addr : String
  pub path : String

pub record HybridConf : Type 0 where
  pub name : String
  pub protocol : String
  pub ws : Endpoint
  pub wt : Endpoint
  pub fallback_strategy : String
  pub fallback_delay : ℤ
  pub fallback_timeout : ℤ
  pub max_retries : ℤ
  pub max_connections : ℤ
  pub auth : AuthHybridConf

abbrev or_default : String → String → String
or_default value default = if str_eq value "" then default else value

-- It never fails.
unfoldable pub set_up : HybridConf → HybridConf
set_up c = record c {
  ws = record { addr = or_default c.ws.addr ":8080"; path = or_default c.ws.path "/ws" };
  wt = record { addr = or_default c.wt.addr ":443"; path = or_default c.wt.path "/wt" };
}

pub record ClientHello : Type 0 where
  pub protocol : String
  pub version : String
  pub supports_wt : Bool
  pub fallback_only : Bool
  pub client_id : String
  pub user_agent : String

pub record ServerHello : Type 0 where
  pub protocol : String
  pub version : String
  pub server_id : String
  pub session_id : String
  pub fallback_url : String

pub record ProtocolInfo : Type 0 where
  pub protocol : String
  pub available : Bool
  pub addr : String
  pub path : String
  pub priority : ℤ
