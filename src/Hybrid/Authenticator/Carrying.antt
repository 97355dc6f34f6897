-- ===== src/Hybrid/Authenticator/Carrying.antt =====
-- hybrid/authenticator.go: where a request carries its token, and the `Bearer` form of a header.
use Prim.Native.String.{◌++◌}
use Prim.Native.String.append
use go_wst.Prelude.{
  ◌≡◌, ◌≢◌, refl, sym, ap, subst, ◌∙◌, String, str_eq, eq_iff, some, false, Bool-cases,
  Option-cases, inl, inr,
}
use text.Mathlib.Text.{starts_with}
use text.Mathlib.TextPositions.{starts_with-append}
use text.Mathlib.TextEquality.{starts_with_iff}
use go_wst.Hybrid.Authenticator.{HttpRequest, drop_as, trim_prefix, cookie_value, token_of}

drop_as-append : (p s : String) → drop_as p (p ++ s) ≡ s
unfolding drop_as
drop_as-append String.[] s = append.nil s
drop_as-append (String.◌∷◌ c p) s = rw (append.cons c p s) (drop_as-append p s)

-- A prefix that is put in front is trimmed again.
pub trim_prefix-append : (p s : String) → trim_prefix (p ++ s) p ≡ s
unfolding trim_prefix
trim_prefix-append p s = rw (starts_with-append p s) (drop_as-append p s)

-- A token in a header reads the same with `Bearer ` in front and without, unless it begins with
-- `Bearer ` itself.
pub token_of-bearer :
    (name token : String) (r : HttpRequest)
    → r.header name ≡ "Bearer " ++ token
    → token_of "header" name r ≡ token
unfolding token_of
token_of-bearer name token r h = rw h (trim_prefix-append "Bearer " token)

-- The ways in which a request carries a token under a name.
pub data Carries (r : HttpRequest) (name token : String) : String → Type 0 where
  in_query : r.query name ≡ token → Carries r name token "query"
  in_header : r.header name ≡ "Bearer " ++ token → Carries r name token "header"
  in_bare_header :
      r.header name ≡ token → starts_with token "Bearer " ≡ false → Carries r name token "header"
  in_cookie : r.cookie name ≡ some token → Carries r name token "cookie"

pub token_of-Carries :
    (r : HttpRequest) (name token source : String)
    → Carries r name token source
    → token_of source name r ≡ token
unfolding token_of trim_prefix cookie_value
token_of-Carries r name token source (in_query e) = e
token_of-Carries r name token source (in_header e) = token_of-bearer name token r e
token_of-Carries r name token source (in_bare_header e bare) = rw (e, bare) refl
token_of-Carries r name token source (in_cookie e) = rw e refl

header-Carries :
    (r : HttpRequest) (name : String)
    → Carries r name (trim_prefix (r.header name) "Bearer ") "header"
unfolding trim_prefix
header-Carries r name = elim (Bool-cases (starts_with (r.header name) "Bearer ")) [
  | inl bearer ↦
      let (rest, split) = (starts_with_iff (r.header name) "Bearer ").0 bearer in
      let trimmed : trim_prefix (r.header name) "Bearer " ≡ rest =
        ap (λ h. trim_prefix h "Bearer ") (sym split) ∙ trim_prefix-append "Bearer " rest in
      in_header (sym split ∙ ap (λ t. "Bearer " ++ t) (sym trimmed))
  | inr bare ↦ rw bare (in_bare_header refl bare)
]

cookie-Carries :
    (r : HttpRequest) (name : String)
    → cookie_value (r.cookie name) ≢ ""
    → Carries r name (cookie_value (r.cookie name)) "cookie"
unfolding cookie_value
cookie-Carries r name full = elim (Option-cases (r.cookie name)) [
  | inl missing ↦ absurd (full (rw missing refl))
  | inr (v, there) ↦ rw there (in_cookie there)
]

-- A token that is found is carried in one of these ways.
pub Carries-token_of :
    (r : HttpRequest) (name source : String)
    → token_of source name r ≢ ""
    → Carries r name (token_of source name r) source
unfolding token_of
Carries-token_of r name source full = elim (Bool-cases (str_eq source "query")) [
  | inl query ↦
      subst (λ s. Carries r name (token_of s name r) s) (sym ((eq_iff source "query").0 query))
        (in_query refl)
  | inr not_query ↦ elim (Bool-cases (str_eq source "header")) [
    | inl header ↦
        subst (λ s. Carries r name (token_of s name r) s) (sym ((eq_iff source "header").0 header))
          (header-Carries r name)
    | inr not_header ↦ elim (Bool-cases (str_eq source "cookie")) [
      | inl cookie ↦
          let at_cookie = (eq_iff source "cookie").0 cookie in
          subst (λ s. token_of s name r ≢ "" → Carries r name (token_of s name r) s) (sym at_cookie)
            (cookie-Carries r name) full
      | inr not_cookie ↦ absurd (full (rw (not_query, not_header, not_cookie) refl))
    ]
  ]
]
