-- ===== src/Tests/Hybrid.antt =====
-- hybrid/: the theorems at concrete inputs.
use go_wst.Prelude.{
  In, ◌&&◌, ℕ, ◌≡◌, ◌≢◌, ◌↔◌, ◌⊎◌, refl, sym, ap, ◌∙◌, String, str_eq, eq_iff, List, [], ◌∷◌, none,
  some, Bool, true, false, if◌then◌else◌, arith, ◌==◌, Bool-cases, inl, inr,
}
use go_wst.Prelude.Int.{pos, leb_ℤ}
use go_wst.Prelude.Dict.{Dict, lookup}
use go_wst.Prelude.Result.{Result, ok, err}
use go_wst.Protocol.Auth.{AuthRequest, protocol_web_transport}
use go_wst.Hybrid.Config.{HybridConf, ClientHello, protocol_auto}
use go_wst.Hybrid.Fallback.{FallbackManager, new_fallback_manager, count_of, select_protocol}
use go_wst.Hybrid.Fallback.Laws.{
  Call, falls_back, connects, resets, run, failures, count_of-run, select_protocol_iff,
}
use go_wst.Hybrid.Authenticator.{
  HttpRequest, WtAuthConfig, HybridAuthenticator, Claim, text_claim, float_claim, json_number,
  other, Token, authenticate, authenticate_jwt,
}
use go_wst.Registry.{IsIndex, bind-IsIndex, bound}
use go_wst.Hybrid.Server.{Server, bind_user, new_server}
use go_wst.Hybrid.Server.Sending.{get_connections, get_connections-bind_user}
use go_wst.Hybrid.Authenticator.Laws.{Named, authenticate_nonempty}
use go_wst.Hybrid.Authenticator.Carrying.{Carries}
use go_wst.Hybrid.Authenticator.Accepted.{Names, ChecksSignatures, authenticate_jwt_ok}

-- A library that accepts one token, for the key "secret" only.
parse_with : Result String String → String → Result String (Token ℕ)
parse_with (err e) token = err e
parse_with (ok key) token =
    if str_eq key "secret"
    then if str_eq token "jwt"
      then ok (record { valid = true; claims = ("sub", text_claim "alice") ∷ [] })
      else err "malformed"
    else err "signature"

pub parse : (Bool → Result String String) → String → Result String (Token ℕ)
unfolding parse_with
parse key token = parse_with (key true) token

abbrev pub format_number : ℕ → String
format_number n = "7"

abbrev wt_config : WtAuthConfig
wt_config = record { token_source = "header"; token_name = "Authorization"; jwt_secret = "secret" }

abbrev http_request : HttpRequest
http_request = record { query = λ _. ""; header = λ _. "Bearer jwt"; cookie = λ _. none }

abbrev request : AuthRequest HttpRequest
request = record { protocol = protocol_web_transport; http_request = some http_request }

abbrev authenticator : HybridAuthenticator
authenticator = record {
  ws_config = record { source = "envoy-header"; header_name = "X-User-ID" };
  wt_config = wt_config;
}

accepted : authenticate_jwt parse format_number wt_config request ≡ ok "alice"
unfolding authenticate_jwt parse lookup
accepted = refl

accepted_hybrid : authenticate parse format_number authenticator request ≡ ok "alice"
unfolding authenticate parse lookup
accepted_hybrid = refl

-- The one token has an HMAC method, and is signed under "secret" only.
abbrev hmac : String → Bool
hmac token = true

abbrev Signed : String → String → Type 0
Signed k token = str_eq k "secret" ≡ true

abbrev claims_in : String → Dict (Claim ℕ)
claims_in token = ("sub", text_claim "alice") ∷ []

parse_with-claims :
    (r : Result String String) (token : String) (t : Token ℕ)
    → parse_with r token ≡ ok t
    → t.claims ≡ ("sub", text_claim "alice") ∷ []
unfolding parse_with
parse_with-claims (err e) token t h = absurd (cc)
parse_with-claims (ok key) token t h = ground arith

checked-signed :
    (answer : Result String String) (token : String) (t : Token ℕ)
    → parse_with answer token ≡ ok t
    → ((k : String) × (answer ≡ ok k) × Signed k token) × (t.claims ≡ claims_in token)
unfolding parse_with
checked-signed (err e) token t h = absurd (cc)
checked-signed (ok k) token t h = elim (Bool-cases (str_eq k "secret")) [
  | inl right ↦ ((k, refl, right), parse_with-claims (ok k) token t h)
  | inr wrong ↦ absurd (let x : err "signature" ≡ ok t = rw wrong at h in cc)
]

library : ChecksSignatures parse hmac Signed claims_in
unfolding parse
library = record {
  signed = λ key token t h valid. (checked-signed (key true) token t h).0;
  read = λ key token t h. (checked-signed (key true) token t h).1;
}

authenticate_jwt_ok_example :
    (r : HttpRequest) × (token : String) × (request.http_request ≡ some r)
    × Carries r "Authorization" token "header"
    × (token ≢ "")
    × (hmac token ≡ true)
    × Signed "secret" token
    × Names format_number
        (claims_in token)
        "alice"
        ("sub" ∷ "user_id" ∷ "UserId" ∷ "userId" ∷ "uid" ∷ [])
authenticate_jwt_ok_example =
    authenticate_jwt_ok parse format_number hmac Signed claims_in library wt_config request "alice"
      accepted

abbrev pub conf : HybridConf
conf = record {
  name = "hybrid";
  protocol = protocol_auto;
  ws = record { addr = ":8080"; path = "/ws" };
  wt = record { addr = ":443"; path = "/wt" };
  fallback_strategy = "auto";
  fallback_delay = pos 1;
  fallback_timeout = pos 5;
  max_retries = pos 3;
  max_connections = pos 10;
  auth = record {
    enabled = true;
    ws_header_name = "X-User-ID";
    wt_token_source = "query";
    wt_token_name = "token";
    wt_jwt_secret = "secret";
  };
}

abbrev manager : FallbackManager
manager = new_fallback_manager conf true

abbrev calls : List Call
calls =
    falls_back "c" protocol_web_transport
    ∷ falls_back "d" protocol_web_transport
    ∷ connects protocol_web_transport
    ∷ falls_back "c" protocol_web_transport
    ∷ resets "d"
    ∷ []

at_first : count_of "c" manager.fallback_count ≡ pos 0
unfolding count_of new_fallback_manager lookup
at_first = refl

count_of-run_example : count_of "c" (run calls manager).fallback_count ≡ pos (failures "c" 0 calls)
count_of-run_example = count_of-run "c" calls manager 0 (omega arith) at_first

abbrev hello : ClientHello
hello = record {
  protocol = "webtransport";
  version = "1.0";
  supports_wt = true;
  fallback_only = false;
  client_id = "c";
  user_agent = "test";
}

select_protocol_iff_example : (select_protocol manager hello ≡ protocol_web_transport) ↔ (
    (true ≡ true)
    × ((manager.conf.protocol ≡ protocol_web_transport)
        ⊎ ((manager.conf.protocol ≡ protocol_auto)
            × (manager.has_wt_server ≡ true)
            × (leb_ℤ manager.conf.max_retries (count_of "c" manager.fallback_count) ≡ false))))
select_protocol_iff_example = select_protocol_iff manager hello

abbrev alice : Dict (Claim ℕ)
alice = ("sub", text_claim "alice") ∷ []

no_number : (f n : String) → lookup f alice ≢ some (json_number n)
unfolding lookup
no_number f n h = ground arith

named :
    (key : Bool → Result String String) (token f : String) (t : Token ℕ) (c : Claim ℕ)
    → parse key token ≡ ok t
    → lookup f t.claims ≡ some c
    → Named format_number c
unfolding parse
named key token f t (text_claim v) e l = tt
named key token f t (float_claim v) e l = ground (arith, eq_iff "7" "")
named key token f t (json_number v) e l =
    absurd (no_number f v (ap (lookup f) (sym (parse_with-claims (key true) token t e)) ∙ l))
named key token f t other e l = tt

authenticate_nonempty_example : ◌≢◌ {A = String} "alice" ""
authenticate_nonempty_example =
    authenticate_nonempty parse format_number authenticator request "alice" named accepted_hybrid

abbrev ids : ℕ → String
ids c = "a"

abbrev server : Server
server = new_server conf true

abbrev numbered : ℕ → String
numbered c = if c == 4 then "a" else "b"

-- Connection 5 is bound to a user that connection 4 is bound to already.
abbrev pub bound_server : Server
bound_server = (bind_user numbered 4 "u" server (λ c. "")).0

pub bound_server-IsIndex : IsIndex bound_server.user_conns
unfolding bind_user new_server
bound_server-IsIndex = bind-IsIndex "u" "a" 4 [] (record { distinct = tt; inner = tt })

get_connections-bind_user_example :
    In 5 (get_connections (bind_user numbered 5 "u" bound_server (λ c. "")).0 ("u" ∷ [])) ↔ (
      (In {A = String} "u" ("u" ∷ []) × (◌≡◌ {A = ℕ} 5 5))
      ⊎ ((v : String) × In {A = String} v ("u" ∷ [])
          × (j : String) × ((str_eq "u" v && str_eq (numbered 5) j) ≡ false)
          × (bound v j bound_server.user_conns ≡ some 5)))
get_connections-bind_user_example =
    get_connections-bind_user numbered 5 5 "u" bound_server (λ c. "") ("u" ∷ [])
      bound_server-IsIndex
