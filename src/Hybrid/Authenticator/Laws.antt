-- ===== src/Hybrid/Authenticator/Laws.antt =====
-- hybrid/authenticator.go: what an accepted request has shown.
use go_wst.Prelude.{
  ◌≡◌, ◌≢◌, refl, String, str_eq, eq_iff, List, [], ◌∷◌, Option, none, some, Bool, true,
  if◌then◌else◌, arith, Bool-cases, Option-cases, inl, inr, Empty,
}
use go_wst.Prelude.Dict.{Dict, lookup}
use go_wst.Prelude.Result.{Result, ok, err}
use go_wst.Protocol.Auth.{AuthRequest, protocol_web_socket, protocol_web_transport}
use go_wst.Hybrid.Authenticator.{
  HttpRequest, WtAuthConfig, HybridAuthenticator, authenticate, authenticate_header,
  missing_user_info, Claim, text_claim, float_claim, json_number, other, Token, token_of, key_for,
  user_of_claim, user_of_claims, user_of_token, with_token, authenticate_jwt,
}

ok_err : {e user : String} → ◌≢◌ {A = Result String String} (err e) (ok user)
ok_err h = cc

module _ {Float : Type 0} (format_float : Float → String) where
  -- What is not "" among the values that the loop can take.
  abbrev pub Named : Claim Float → Type 0
  Named (float_claim v) = format_float v ≢ ""
  Named (json_number v) = v ≢ ""
  Named _ = Unit

  user_of_claim_nonempty :
      (o : Option (Claim Float)) (rest : Option String) (user : String)
      → ((c : Claim Float) → o ≡ some c → Named c)
      → (rest ≡ some user → user ≢ "")
      → user_of_claim format_float o rest ≡ some user
      → user ≢ ""
  unfolding user_of_claim
  user_of_claim_nonempty none rest user h r e = r e
  user_of_claim_nonempty (some (text_claim v)) rest user h r e = ground (arith, eq_iff v "")
  user_of_claim_nonempty (some (float_claim v)) rest user h r e =
      ground (arith, h (float_claim v) refl)
  user_of_claim_nonempty (some (json_number v)) rest user h r e =
      ground (arith, h (json_number v) refl)
  user_of_claim_nonempty (some other) rest user h r e = r e

  user_of_claims_nonempty :
      (fs : List String) (claims : Dict (Claim Float)) (user : String)
      → ((f : String) (c : Claim Float) → lookup f claims ≡ some c → Named c)
      → user_of_claims format_float fs claims ≡ some user
      → user ≢ ""
  unfolding user_of_claims
  user_of_claims_nonempty [] claims user h e = absurd (cc)
  user_of_claims_nonempty (f ∷ fs) claims user h e =
      user_of_claim_nonempty (lookup f claims) _ user (h f)
        (user_of_claims_nonempty fs claims user h) e

  -- The token of a parse whose user is accepted.
  abbrev pub Grants : Result String (Token Float) → String → Type 0
  Grants (err e) user = Empty
  Grants (ok t) user =
      (t.valid ≡ true)
      × (user_of_claims format_float ("sub" ∷ "user_id" ∷ "UserId" ∷ "userId" ∷ "uid" ∷ []) t.claims
          ≡ some user)

  user_of_token-Grants :
      (p : Result String (Token Float)) (user : String)
      → user_of_token format_float p ≡ ok user
      → Grants p user
  unfolding user_of_token
  user_of_token-Grants (err e) user h = absurd (cc)
  user_of_token-Grants (ok t) user h = ground arith

  Grants-nonempty :
      (p : Result String (Token Float)) (user : String)
      → ((f : String) (t : Token Float) (c : Claim Float)
          → p ≡ ok t
          → lookup f t.claims ≡ some c
          → Named c)
      → Grants p user
      → user ≢ ""
  Grants-nonempty (err e) user h g = elim g [ ]
  Grants-nonempty (ok t) user h g =
      user_of_claims_nonempty _ t.claims user (λ f c l. h f t c refl l) g.1

authenticate_header_nonempty :
    (name : String) (req : AuthRequest HttpRequest) (user : String)
    → authenticate_header name req ≡ ok user
    → user ≢ ""
unfolding authenticate_header
authenticate_header_nonempty name req user e = elim (Option-cases req.http_request) [
  | inl absent ↦ absurd (ok_err (rw absent at e))
  | inr (r, present) ↦
      let accepted : (if str_eq (r.header name) ""
            then err missing_user_info
            else ok (r.header name))
          ≡ ok user =
        rw present at e in
      ground (arith, eq_iff (r.header name) "")
]

module _ {Float : Type 0}
    (parse : (Bool → Result String String) → String → Result String (Token Float))
    (format_float : Float → String) where
  -- The HTTP request of a request that is accepted, with its token, which is parsed.
  pub accepted_token :
      (conf : WtAuthConfig) (req : AuthRequest HttpRequest) (user : String)
      → authenticate_jwt parse format_float conf req ≡ ok user
      → (r : HttpRequest) × (req.http_request ≡ some r)
        × (token_of conf.token_source conf.token_name r ≢ "")
        × Grants format_float
            (parse (key_for conf.jwt_secret) (token_of conf.token_source conf.token_name r))
            user
  unfolding authenticate_jwt with_token
  accepted_token conf req user h = elim (Option-cases req.http_request) [
    | inl absent ↦ absurd (ok_err (rw absent at h))
    | inr (r, present) ↦
        elim (Bool-cases (str_eq (token_of conf.token_source conf.token_name r) "")) [
          | inl empty ↦ absurd (ok_err (rw empty at (rw present at h)))
          | inr full ↦ (
            r,
            present,
            ground (arith, eq_iff (token_of conf.token_source conf.token_name r) ""),
            user_of_token-Grants format_float _ user (rw full at (rw present at h)),
          )
        ]
  ]

  jwt_nonempty :
      (conf : WtAuthConfig) (req : AuthRequest HttpRequest) (user : String)
      → ((key : Bool → Result String String) (token f : String) (t : Token Float) (c : Claim Float)
          → parse key token ≡ ok t
          → lookup f t.claims ≡ some c
          → Named format_float c)
      → authenticate_jwt parse format_float conf req ≡ ok user
      → user ≢ ""
  jwt_nonempty conf req user h e =
      let (r, present, full, grants) = accepted_token conf req user e in
      Grants-nonempty format_float _ user (h _ _) grants

  -- The hybrid authenticator accepts no request for the empty user, provided that the printed form
  -- of a number is not empty and that the JWT library puts no empty number into a claim.
  pub authenticate_nonempty :
      (a : HybridAuthenticator) (req : AuthRequest HttpRequest) (user : String)
      → ((key : Bool → Result String String) (token f : String) (t : Token Float) (c : Claim Float)
          → parse key token ≡ ok t
          → lookup f t.claims ≡ some c
          → Named format_float c)
      → authenticate parse format_float a req ≡ ok user
      → user ≢ ""
  unfolding authenticate
  authenticate_nonempty a req user h e =
      elim (Bool-cases (str_eq req.protocol protocol_web_socket)) [
        | inl ws ↦ authenticate_header_nonempty a.ws_config.header_name req user (rw ws at e)
        | inr not_ws ↦ elim (Bool-cases (str_eq req.protocol protocol_web_transport)) [
          | inl wt ↦ jwt_nonempty a.wt_config req user h (rw wt at (rw not_ws at e))
          | inr not_wt ↦ absurd (ok_err (rw not_wt at (rw not_ws at e)))
        ]
      ]
