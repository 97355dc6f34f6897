-- ===== src/Hybrid/Authenticator.antt =====
-- hybrid/authenticator.go: where a token or a header is taken from, and what a verified token says
-- of the user. The JWT library and the formatting of a `float64` are parameters.
pub mod Laws
pub mod Carrying
pub mod Accepted
use go_wst.Prelude.{
  String, str_eq, List, [], ◌∷◌, Option, none, some, Bool, true, false, if◌then◌else◌,
}
use text.Mathlib.Text.{starts_with}
use go_wst.Prelude.Dict.{Dict, lookup}
use go_wst.Prelude.Result.{Result, ok, err}
use go_wst.Protocol.Auth.{AuthRequest, Authenticator, protocol_web_socket, protocol_web_transport}

-- What the authenticators read of a `*http.Request`; an absent value reads as "".
pub record HttpRequest : Type 0 where
  pub query : String → String
  pub header : String → String
  pub cookie : String → Option String

pub record WsAuthConfig : Type 0 where
  pub source : String
  pub header_name : String

pub record WtAuthConfig : Type 0 where
  pub token_source : String
  pub token_name : String
  pub jwt_secret : String

pub record HybridAuthenticator : Type 0 where
  pub ws_config : WsAuthConfig
  pub wt_config : WtAuthConfig

abbrev pub missing_token : String
missing_token = "missing authentication token"

abbrev pub invalid_token : String
invalid_token = "invalid authentication token"

abbrev pub missing_user_info : String
missing_user_info = "missing user info from envoy"

-- A text without as many characters as another has.
unfoldable pub drop_as : String → String → String
drop_as String.[] s = s
drop_as (String.◌∷◌ c p) String.[] = ""
drop_as (String.◌∷◌ c p) (String.◌∷◌ d s) = drop_as p s

unfoldable pub trim_prefix : String → String → String
unfolding drop_as
trim_prefix s p = if starts_with s p then drop_as p s else s

unfoldable pub cookie_value : Option String → String
cookie_value none = ""
cookie_value (some v) = v

-- The `switch` on the token source; an unknown one leaves the token empty.
unfoldable pub token_of : String → String → HttpRequest → String
unfolding trim_prefix cookie_value
token_of source name r =
    if str_eq source "query"
    then r.query name
    else if str_eq source "header"
    then trim_prefix (r.header name) "Bearer "
    else if str_eq source "cookie"
    then cookie_value (r.cookie name)
    else ""

-- The values of a claim that the code tells apart.
pub data Claim (Float : Type 0) : Type 0 where
  text_claim : String → Claim Float
  float_claim : Float → Claim Float
  json_number : String → Claim Float
  other : Claim Float

pub record Token (Float : Type 0) : Type 0 where
  pub valid : Bool
  pub claims : Dict (Claim Float)

-- The function that is handed to the JWT library: the key, for an HMAC method only.
unfoldable pub key_for : String → Bool → Result String String
key_for secret true = ok secret
key_for secret false = err invalid_token

-- `authenticateFromEnvoy`, and `EnvoyHeaderAuthenticator.Authenticate`
unfoldable pub authenticate_header : String → AuthRequest HttpRequest → Result String String
authenticate_header name req = elim req.http_request [
  | none ↦ err missing_user_info
  | some r ↦ if str_eq (r.header name) "" then err missing_user_info else ok (r.header name)
]

-- `format_float` is `strconv.FormatInt(int64(v), 10)`.
module _ {Float : Type 0} (format_float : Float → String) where
  -- One field of the loop, where the loop goes on with `rest`.
  unfoldable pub user_of_claim : Option (Claim Float) → Option String → Option String
  user_of_claim none rest = rest
  user_of_claim (some (text_claim v)) rest = if str_eq v "" then rest else some v
  user_of_claim (some (float_claim v)) rest = some (format_float v)
  user_of_claim (some (json_number v)) rest = some v
  user_of_claim (some other) rest = rest

  unfoldable pub user_of_claims : List String → Dict (Claim Float) → Option String
  unfolding user_of_claim
  user_of_claims [] claims = none
  user_of_claims (f ∷ fs) claims = user_of_claim (lookup f claims) (user_of_claims fs claims)

  -- The last part of `HybridAuthenticator.authenticateJWT`.
  unfoldable pub user_of_token : Result String (Token Float) → Result String String
  unfolding user_of_claims
  user_of_token (err e) = err invalid_token
  user_of_token (ok t) =
      if t.valid
      then elim (user_of_claims ("sub" ∷ "user_id" ∷ "UserId" ∷ "userId" ∷ "uid" ∷ []) t.claims) [
        | none ↦ err invalid_token
        | some user ↦ ok user
      ]
      else err invalid_token

module _ {Float : Type 0} where
  -- The last part of `JWTAuthenticator.Authenticate`: the claim `sub` alone, if it is a text.
  unfoldable pub subject_of_claim : Option (Claim Float) → Result String String
  subject_of_claim (some (text_claim user)) = ok user
  subject_of_claim _ = err invalid_token

  unfoldable pub subject_of_token : Result String (Token Float) → Result String String
  unfolding subject_of_claim
  subject_of_token (err e) = err invalid_token
  subject_of_token (ok t) =
      if t.valid then subject_of_claim (lookup "sub" t.claims) else err invalid_token

-- `parse` is `jwt.ParseWithClaims` with a function that gives the key from whether the method is an
-- HMAC.
module _ {Float : Type 0}
    (parse : (Bool → Result String String) → String → Result String (Token Float)) where
  -- What the two functions share, up to the use of the parsed token.
  unfoldable pub with_token :
      (Result String (Token Float) → Result String String)
      → WtAuthConfig
      → AuthRequest HttpRequest
      → Result String String
  unfolding token_of key_for
  with_token use_token conf req = elim req.http_request [
    | none ↦ err missing_token
    | some r ↦
        let token = token_of conf.token_source conf.token_name r in
        if str_eq token ""
        then err missing_token
        else use_token (parse (key_for conf.jwt_secret) token)
  ]

  -- `JWTAuthenticator.Authenticate`
  unfoldable pub authenticate_subject :
      WtAuthConfig → AuthRequest HttpRequest → Result String String
  unfolding with_token subject_of_token
  authenticate_subject conf req = with_token subject_of_token conf req

module _ {Float : Type 0}
    (parse : (Bool → Result String String) → String → Result String (Token Float))
    (format_float : Float → String) where
  unfoldable pub authenticate_jwt : WtAuthConfig → AuthRequest HttpRequest → Result String String
  unfolding with_token user_of_token
  authenticate_jwt conf req = with_token parse (user_of_token format_float) conf req

  -- `HybridAuthenticator.Authenticate`
  unfoldable pub authenticate : HybridAuthenticator → Authenticator HttpRequest
  unfolding authenticate_header authenticate_jwt
  authenticate a req =
      if str_eq req.protocol protocol_web_socket
      then authenticate_header a.ws_config.header_name req
      else if str_eq req.protocol protocol_web_transport
      then authenticate_jwt a.wt_config req
      else err "unsupported protocol"
