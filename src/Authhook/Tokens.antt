-- ===== src/Authhook/Tokens.antt =====
-- example/authhook/main.go against hybrid/authenticator.go and ws/server.go: what becomes of a token
-- that `genJWT` has made.
use Prim.Native.String.{◌++◌ as text_append}
use Prim.Native.String.append
use Prim.Native.Char.{Char}
use go_wst.Prelude.{
  ℕ, ◌+◌, ◌≤◌, ◌<◌, ◌≡◌, ◌≢◌, refl, sym, ap, ◌∙◌, String, str_eq, List, [], ◌∷◌, ◌++◌, Option, none,
  some, Bool, true, false,
}
use go_wst.Prelude.Dict.{Dict, lookup, str_eq_ne}
use go_wst.Prelude.Result.{Result, ok, err}
use go_wst.Protocol.Auth.{AuthRequest}
use go_wst.Hybrid.Authenticator.{
  HttpRequest, WtAuthConfig, Claim, text_claim, float_claim, Token, key_for, user_of_claim,
  user_of_claims, user_of_token, subject_of_token, subject_of_claim, with_token, authenticate_jwt,
  authenticate_subject, invalid_token,
}
use go_wst.Hybrid.Authenticator.Carrying.{Carries, token_of-Carries}
use go_wst.Ws.Server.{Server, user_of}
use go_wst.Ws.Handler.{authenticated}
use go_wst.Ws.Handler.Authentication.{user_of-authenticated}
use go_wst.Authhook.{
  gen_jwt, signed_part, payload, jwt_header, Recorder, on_connect, last_uid, last_of,
}

-- The JSON object with the members `sub`, a text with no characters to escape, `iat` and `exp`.
abbrev pub claims_text : (ℕ → String) → String → ℕ → ℕ → String
claims_text format user iat exp = text_append "{\"sub\":\"" (
    text_append user (
      text_append "\",\"iat\":"
        (text_append (format iat) (text_append ",\"exp\":" (text_append (format exp) "}")))))

-- The claims that it is read as; a number is read as a float.
abbrev pub claims_of : {Float : Type 0} → (ℕ → Float) → String → ℕ → ℕ → Dict (Claim Float)
claims_of number user iat exp =
    ("sub", text_claim user)
    ∷ ("iat", float_claim (number iat))
    ∷ ("exp", float_claim (number exp))
    ∷ []

-- At the time `at` a token is issued already and not expired yet, and no other bound is set.
abbrev pub InTime : {Float : Type 0} → (ℕ → Float) → ℕ → Dict (Claim Float) → Type 0
InTime number at claims =
    (iat : ℕ) × (exp : ℕ) × (lookup "iat" claims ≡ some (float_claim (number iat)))
    × (lookup "exp" claims ≡ some (float_claim (number exp)))
    × (lookup "nbf" claims ≡ none)
    × (iat ≤ at)
    × (at < exp)

-- What the JWT library documents of `ParseWithClaims` at the time `at`, for a token of three parts with
-- the header of `genJWT`: under the key that it is given it accepts the signature of the first two
-- parts, and no third part that does not decode to that signature. `decode` reads the claims.
pub record IsJwtLibrary {Float : Type 0}
    (parse : (Bool → Result String String) → String → Result String (Token Float))
    (encode : String → String) (unencode : String → Option String) (mac : String → String → String)
    (decode : String → Option (Dict (Claim Float))) (number : ℕ → Float) (at : ℕ) : Type 0 where
  pub decodes :
      (secret input : String) → unencode (encode (mac secret input)) ≡ some (mac secret input)
  pub accepts :
      (key : Bool → Result String String) (secret body : String) (claims : Dict (Claim Float))
      → key true ≡ ok secret
      → decode body ≡ some claims
      → InTime number at claims
      → let input = text_append (encode jwt_header) (text_append "." (encode body)) in
        parse key (text_append input (text_append "." (encode (mac secret input))))
        ≡ ok (record { valid = true; claims = claims })
  pub rejects :
      (key : Bool → Result String String) (secret body signature : String)
      → key true ≡ ok secret
      → let input = text_append (encode jwt_header) (text_append "." (encode body)) in
        unencode signature ≢ some (mac secret input)
        → (e : String) × (parse key (text_append input (text_append "." signature)) ≡ err e)

cons_nonempty : (c : Char) (s : String) → str_eq (String.◌∷◌ c s) "" ≡ false
cons_nonempty c s = str_eq_ne (String.◌∷◌ c s) "" (λ e. cc)

append_nonempty : (s t : String) → str_eq (text_append s (text_append "." t)) "" ≡ false
append_nonempty String.[] t =
    rw (append.nil (text_append "." t), append.cons "." "" t) (cons_nonempty "." (text_append "" t))
append_nonempty (String.◌∷◌ c s) t =
    rw (append.cons c s (text_append "." t)) (cons_nonempty c (text_append s (text_append "." t)))

some_eq : {a b : String} → some a ≡ some b → a ≡ b
some_eq e = cc

last_of-append : (us : List String) (u : String) → last_of (us ++ u ∷ []) ≡ u
unfolding last_of
last_of-append [] u = refl
last_of-append (v ∷ []) u = refl
last_of-append (v ∷ w ∷ us) u = last_of-append (w ∷ us) u

last_uid-on_connect : (user : String) (h : Recorder) → last_uid (on_connect user h) ≡ user
unfolding last_uid on_connect
last_uid-on_connect user h = last_of-append h.connects user

module _ {Float : Type 0}
    (parse : (Bool → Result String String) → String → Result String (Token Float))
    (format_float : Float → String) (encode : String → String) (unencode : String → Option String)
    (mac : String → String → String) (format : ℕ → String)
    (decode : String → Option (Dict (Claim Float))) (number : ℕ → Float) (at : ℕ)
    (lib : IsJwtLibrary parse encode unencode mac decode number at) where
  user_of_token-sub :
      (claims : Dict (Claim Float)) (user : String)
      → lookup "sub" claims ≡ some (text_claim user)
      → user ≢ ""
      → (user_of_token format_float (ok (record { valid = true; claims = claims })) ≡ ok user)
        × (subject_of_token {Float = Float} (ok (record { valid = true; claims = claims }))
            ≡ ok user)
  unfolding user_of_token user_of_claims user_of_claim subject_of_token subject_of_claim
  user_of_token-sub claims user sub named = (rw (sub, str_eq_ne user "" named) refl, rw sub refl)

  module _ (conf : WtAuthConfig) (req : AuthRequest HttpRequest) (r : HttpRequest)
      (secret user : String) (now : ℕ) (given : req.http_request ≡ some r)
      (carries : Carries r conf.token_name
        (gen_jwt encode mac format secret user now)
        conf.token_source) where
    -- What either authenticator does with the token.
    with_token-gen_jwt :
        (use_token : Result String (Token Float) → Result String String)
        → with_token parse use_token conf req
          ≡ use_token (parse (key_for conf.jwt_secret) (gen_jwt encode mac format secret user now))
    unfolding with_token gen_jwt
    with_token-gen_jwt use_token =
        rw
          (
            given,
            token_of-Carries r conf.token_name _ conf.token_source carries,
            append_nonempty (signed_part encode mac format user now)
                (encode (mac secret (signed_part encode mac format user now))),
          )
          refl

    -- A token that `genJWT` has made at the time `now` for a user under the secret of the server, in
    -- a request that carries it in whichever way the server looks for it, is accepted for that user
    -- by both authenticators from then on until a day later, provided that the JSON object with this
    -- user as `sub`, `now` as `iat` and the end of the day as `exp` is read as these three claims; a
    -- WebSocket handler that asks the authenticator of `serve` gives its connection that user, and
    -- `lastUID` of the recorder names it after `OnConnect`.
    pub authenticate_jwt-gen_jwt :
        (c : ℕ) (s : Server) (h : Recorder)
        → conf.jwt_secret ≡ secret
        → user ≢ ""
        → decode (claims_text format user now (now + 86400))
          ≡ some (claims_of number user now (now + 86400))
        → now ≤ at
        → at < now + 86400
        → let answer = authenticate_subject parse conf req in
          (authenticate_jwt parse format_float conf req ≡ ok user)
          × (answer ≡ ok user)
          × (user_of (authenticated true answer c s).0 c ≡ user)
          × (last_uid (on_connect (user_of (authenticated true answer c s).0 c) h) ≡ user)
    unfolding authenticate_jwt authenticate_subject gen_jwt signed_part key_for payload lookup
    authenticate_jwt-gen_jwt c s h same named read issued unexpired =
        let claims = claims_of number user now (now + 86400) in
        let parsed : parse (key_for conf.jwt_secret) (gen_jwt encode mac format secret user now)
            ≡ ok (record { valid = true; claims = claims }) =
          lib.accepts (key_for conf.jwt_secret) secret (payload encode mac format user now) claims
            (ap ok same) read (now, now + 86400, refl, refl, refl, issued, unexpired) in
        let (by_claims, by_subject) = user_of_token-sub claims user refl named in
        let accepted : authenticate_subject parse conf req ≡ ok user =
          with_token-gen_jwt subject_of_token ∙ ap subject_of_token parsed ∙ by_subject in
        let bound =
          ap (λ a. user_of (authenticated true a c s).0 c) accepted
          ∙ user_of-authenticated user c s named in
        (
          with_token-gen_jwt (user_of_token format_float)
              ∙ ap (user_of_token format_float) parsed
              ∙ by_claims,
          accepted,
          bound,
          last_uid-on_connect _ h ∙ bound,
        )

    -- A server with another secret, under which the signature of the token would be another one,
    -- rejects it with both authenticators.
    pub authenticate_jwt-gen_jwt_rejected :
        mac secret (signed_part encode mac format user now)
          ≢ mac conf.jwt_secret (signed_part encode mac format user now)
        → (authenticate_jwt parse format_float conf req ≡ err invalid_token)
          × (authenticate_subject parse conf req ≡ err invalid_token)
    unfolding authenticate_jwt authenticate_subject gen_jwt signed_part key_for user_of_token
        subject_of_token
    authenticate_jwt-gen_jwt_rejected differs =
        let input = signed_part encode mac format user now in
        let (e, rejected) =
          lib.rejects (key_for conf.jwt_secret) conf.jwt_secret (payload encode mac format user now)
            (encode (mac secret input)) refl
            (λ p. differs (some_eq (sym (lib.decodes secret input) ∙ p))) in
        (
          with_token-gen_jwt (user_of_token format_float)
              ∙ ap (user_of_token format_float) rejected,
          with_token-gen_jwt subject_of_token ∙ ap subject_of_token rejected,
        )
