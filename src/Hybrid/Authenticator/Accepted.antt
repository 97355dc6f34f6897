-- ===== src/Hybrid/Authenticator/Accepted.antt =====
-- hybrid/authenticator.go: what a request with a JWT has shown when it is accepted, on a library that
-- checks signatures.
use go_wst.Prelude.{
  ◌≡◌, ◌≢◌, ◌⊎◌, refl, sym, subst, ap, ◌∙◌, String, str_eq, eq_iff, List, [], ◌∷◌, none, some, Bool,
  true, false, arith, Bool-cases, Option-cases, inl, inr, Empty,
}
use go_wst.Prelude.Dict.{Dict, lookup}
use go_wst.Prelude.Result.{Result, ok, err}
use go_wst.Protocol.Auth.{AuthRequest}
use go_wst.Hybrid.Authenticator.{
  HttpRequest, WtAuthConfig, Claim, text_claim, float_claim, json_number, other, Token, token_of,
  key_for, user_of_claim, user_of_claims, authenticate_jwt,
}
use go_wst.Hybrid.Authenticator.Carrying.{Carries, Carries-token_of}
use go_wst.Hybrid.Authenticator.Laws.{Grants, accepted_token}

-- What the JWT library documents of `ParseWithClaims`: a token is valid only if its method, of which
-- `hmac` tells whether it is an HMAC one, has a key, and the token is signed under that key; the
-- claims are those of the token.
pub record ChecksSignatures {Float : Type 0}
    (parse : (Bool → Result String String) → String → Result String (Token Float))
    (hmac : String → Bool) (Signed : String → String → Type 0)
    (claims_in : String → Dict (Claim Float)) : Type 0 where
  pub signed :
      (key : Bool → Result String String) (token : String) (t : Token Float)
      → parse key token ≡ ok t
      → t.valid ≡ true
      → (k : String) × (key (hmac token) ≡ ok k) × Signed k token
  pub read :
      (key : Bool → Result String String) (token : String) (t : Token Float)
      → parse key token ≡ ok t
      → t.claims ≡ claims_in token

key_for_ok : (secret k : String) (b : Bool) → key_for secret b ≡ ok k → (b ≡ true) × (secret ≡ k)
unfolding key_for
key_for_ok secret k true h = (refl, cc)
key_for_ok secret k false h = absurd (cc)

module _ {Float : Type 0} (format_float : Float → String) where
  -- The claim gives the user: a text that is not empty, or a number in its printed form.
  abbrev pub Gives : Claim Float → String → Type 0
  Gives (text_claim v) user = (v ≢ "") × (v ≡ user)
  Gives (float_claim v) user = format_float v ≡ user
  Gives (json_number v) user = v ≡ user
  Gives other user = Empty

  -- The first of the fields with a claim that gives a user gives this one.
  abbrev pub Names : Dict (Claim Float) → String → List String → Type 0
  Names claims user [] = Empty
  Names claims user (f ∷ fs) =
      ((c : Claim Float) × (lookup f claims ≡ some c) × Gives c user)
      ⊎ (((c : Claim Float) (u : String) → lookup f claims ≡ some c → ¬ Gives c u)
          × Names claims user fs)

  some_eq : {A : Type 0} {a b : A} → some a ≡ some b → a ≡ b
  some_eq e = cc

  skips :
      (f : String) (claims : Dict (Claim Float)) (d : Claim Float)
      → lookup f claims ≡ some d
      → ((u : String) → ¬ Gives d u)
      → (c : Claim Float) (u : String) → lookup f claims ≡ some c
      → ¬ Gives c u
  skips f claims d there none_given c u found g =
      none_given u (subst (λ x. Gives x u) (some_eq (sym found ∙ there)) g)

  user_of_claims-Names :
      (fs : List String) (claims : Dict (Claim Float)) (user : String)
      → user_of_claims format_float fs claims ≡ some user
      → Names claims user fs
  unfolding user_of_claims user_of_claim
  user_of_claims-Names [] claims user h = absurd (cc)
  user_of_claims-Names (f ∷ fs) claims user h = elim (Option-cases (lookup f claims)) [
    | inl missing ↦ inr (
      (λ c u found. absurd (let k : none ≡ some c = sym missing ∙ found in cc)),
      user_of_claims-Names fs claims user (rw missing at h),
    )
    | inr (text_claim v, there) ↦ elim (Bool-cases (str_eq v "")) [
      | inl empty ↦ inr (
        skips f claims (text_claim v) there (λ u g. g.0 ((eq_iff v "").0 empty)),
        user_of_claims-Names fs claims user (rw empty at (rw there at h)),
      )
      | inr full ↦ inl (
        text_claim v,
        there,
        ((λ e. ground (arith, eq_iff v "")), some_eq (rw full at (rw there at h))),
      )
    ]
    | inr (float_claim v, there) ↦ inl (float_claim v, there, some_eq (rw there at h))
    | inr (json_number v, there) ↦ inl (json_number v, there, some_eq (rw there at h))
    | inr (other, there) ↦ inr (
      skips f claims other there (λ u g. elim g [ ]),
      user_of_claims-Names fs claims user (rw there at h),
    )
  ]

module _ {Float : Type 0}
    (parse : (Bool → Result String String) → String → Result String (Token Float))
    (format_float : Float → String) (hmac : String → Bool) (Signed : String → String → Type 0)
    (claims_in : String → Dict (Claim Float))
    (lib : ChecksSignatures parse hmac Signed claims_in) where
  token_accepted :
      (secret token user : String) (p : Result String (Token Float))
      → parse (key_for secret) token ≡ p
      → Grants format_float p user
      → (hmac token ≡ true)
        × Signed secret token
        × Names format_float
            (claims_in token)
            user
            ("sub" ∷ "user_id" ∷ "UserId" ∷ "userId" ∷ "uid" ∷ [])
  token_accepted secret token user (err e) parsed g = elim g [ ]
  token_accepted secret token user (ok t) parsed g =
      let (k, keyed, signed) = lib.signed (key_for secret) token t parsed g.0 in
      let (is_hmac, same) = key_for_ok secret k (hmac token) keyed in
      (
        is_hmac,
        subst (λ x. Signed x token) (sym same) signed,
        user_of_claims-Names format_float _ (claims_in token) user (
            ap (user_of_claims format_float _) (sym (lib.read (key_for secret) token t parsed))
            ∙ g.1),
      )

  -- A request that the JWT authenticator accepts for a user carries, in the way that is configured, a
  -- token that is not empty, has an HMAC method and is signed under the configured secret; and the
  -- first of the claims `sub`, `user_id`, `UserId`, `userId` and `uid` of the token that is a text
  -- that is not empty or a number is that user. It is assumed that the JWT library accepts a token
  -- only with a signature under the key that it is given for the token's method.
  pub authenticate_jwt_ok :
      (conf : WtAuthConfig) (req : AuthRequest HttpRequest) (user : String)
      → authenticate_jwt parse format_float conf req ≡ ok user
      → (r : HttpRequest) × (token : String) × (req.http_request ≡ some r)
        × Carries r conf.token_name token conf.token_source
        × (token ≢ "")
        × (hmac token ≡ true)
        × Signed conf.jwt_secret token
        × Names format_float
            (claims_in token)
            user
            ("sub" ∷ "user_id" ∷ "UserId" ∷ "userId" ∷ "uid" ∷ [])
  authenticate_jwt_ok conf req user h =
      let (r, present, full, grants) = accepted_token parse format_float conf req user h in
      let token = token_of conf.token_source conf.token_name r in
      let (is_hmac, signed, names) = token_accepted conf.jwt_secret token user _ refl grants in
      (
        r,
        token,
        present,
        Carries-token_of r conf.token_name conf.token_source full,
        full,
        is_hmac,
        signed,
        names,
      )
