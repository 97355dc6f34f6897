-- ===== src/Protocol/Auth.antt =====
-- internal/protocol/auth.go and the protocol names of internal/protocol/connection.go.
use go_wst.Prelude.{String, Option, Bool}
use go_wst.Prelude.Int.{ℤ}
use go_wst.Prelude.Result.{Result, ok}

-- `Protocol`, `AuthMode` and `AuthSource` are strings.
abbrev pub protocol_web_socket : String
protocol_web_socket = "websocket"

abbrev pub protocol_web_transport : String
protocol_web_transport = "webtransport"

pub record AuthConfig : Type 0 where
  pub enabled : Bool
  pub mode : String
  pub source : String
  pub token_source : String
  pub token_name : String
  pub header_name : String
  pub jwt_secret : String
  pub timeout : ℤ

-- `HttpRequest` is a type of the caller: what an authenticator reads of a request is its business.
pub record AuthRequest (HttpRequest : Type 0) : Type 0 where
  pub protocol : String
  pub http_request : Option HttpRequest

abbrev pub Authenticator : Type 0 → Type 0
Authenticator HttpRequest = AuthRequest HttpRequest → Result String String

unfoldable pub no_op_authenticate : {HttpRequest : Type 0} → Authenticator HttpRequest
no_op_authenticate req = ok ""
