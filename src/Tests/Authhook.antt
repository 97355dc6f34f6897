-- ===== src/Tests/Authhook.antt =====
-- example/authhook/: the theorems at concrete inputs.
use Prim.Native.String.{◌++◌ as text_append}
use Prim.Native.String.append
use go_wst.Prelude.{
  ℕ, ◌+◌, ◌*◌, ◌≡◌, ◌≢◌, ◌↔◌, ◌⊎◌, refl, ◌∙◌, ap, String, str_eq, [], ◌∷◌, Option, none, some, Bool,
  true, false, ◌==◌, if◌then◌else◌, Bool-cases, inl, inr, arith,
}
use go_wst.Prelude.Int.{pos}
use go_wst.Prelude.Dict.{Dict, str_eq_refl, str_eq_ne}
use go_wst.Prelude.Result.{Result, ok, err}
use go_wst.Protocol.Auth.{AuthRequest, protocol_web_transport}
use go_wst.Hybrid.Authenticator.{
  HttpRequest, WtAuthConfig, Claim, Token, drop_as, authenticate_jwt, authenticate_subject,
  invalid_token,
}
use go_wst.Ws.Connection.{new_connection}
use go_wst.Ws.Server.{Server, user_of}
use go_wst.Ws.Handler.{authenticated}
use go_wst.Authhook.{
  jwt_header, gen_jwt, signed_part, Recorder, on_connect, last_uid, wait_conn, serve,
}
use go_wst.Hybrid.Authenticator.Carrying.{in_header}
use go_wst.Authhook.Tokens.{
  IsJwtLibrary, claims_text, claims_of, authenticate_jwt-gen_jwt, authenticate_jwt-gen_jwt_rejected,
}
use go_wst.Tests.Certificates.{differs}
use go_wst.Authhook.Waiting.{Finds, pause, wait_conn-total}

abbrev format : ℕ → String
format n = if n == 0 then "0" else "86400"

abbrev number : ℕ → ℕ
number n = n

-- The payload that is made for "alice" at the time 0.
abbrev alice : String
alice = "{\"sub\":\"alice\",\"iat\":0,\"exp\":86400}"

abbrev claims : Dict (Claim ℕ)
claims = claims_of number "alice" 0 86400

-- One letter stands for each part of a token, and the last one tells whether the secret was right.
encode : String → String
encode s = if str_eq s "good" then "y" else "x"

unencode : String → Option String
unencode s = if str_eq s "y" then some "good" else if str_eq s "x" then some "bad" else none

mac : String → String → String
mac secret input = if str_eq secret "secret" then "good" else "bad"

decode : String → Option (Dict (Claim ℕ))
decode body = if str_eq body alice then some claims else none

signed : String → Option String → Bool
signed s none = false
signed s (some t) = str_eq t s

checked_with : Result String String → String → Result String (Token ℕ)
unfolding unencode mac drop_as signed
checked_with (err e) token = err e
checked_with (ok key) token =
    if signed (mac key "") (unencode (drop_as "x.x." token))
    then ok (record { valid = true; claims = claims })
    else err "signature"

parse : (Bool → Result String String) → String → Result String (Token ℕ)
unfolding checked_with
parse key token = checked_with (key true) token

-- Any three letters and a dot in front of the signature are cut off.
cut :
    (b signature : String)
    → (b ≡ "x.x") ⊎ (b ≡ "x.y")
    → drop_as "x.x." (text_append b (text_append "." signature)) ≡ signature
unfolding drop_as
cut b signature (inl e) =
    rw
      (
        e,
        append.cons "x" ".x" (text_append "." signature),
        append.cons "." "x" (text_append "." signature),
        append.cons "x" "" (text_append "." signature),
        append.nil (text_append "." signature),
        append.cons "." "" signature,
        append.nil signature,
      )
      refl
cut b signature (inr e) =
    rw
      (
        e,
        append.cons "x" ".y" (text_append "." signature),
        append.cons "." "y" (text_append "." signature),
        append.cons "y" "" (text_append "." signature),
        append.nil (text_append "." signature),
        append.cons "." "" signature,
        append.nil signature,
      )
      refl

signature_of :
    (body signature : String)
    → drop_as "x.x." (
        text_append
          (text_append (encode jwt_header) (text_append "." (encode body)))
          (text_append "." signature))
      ≡ signature
unfolding encode
signature_of body signature = elim (Bool-cases (str_eq body "good")) [
  | inl good ↦ rw good (cut "x.y" signature (inr refl))
  | inr bad ↦ rw bad (cut "x.x" signature (inl refl))
]

checks :
    (k body signature : String)
    → checked_with (ok k) (
        text_append
          (text_append (encode jwt_header) (text_append "." (encode body)))
          (text_append "." signature))
      ≡ (if signed (mac k "") (unencode signature)
          then ok (record { valid = true; claims = claims })
          else err "signature")
unfolding checked_with
checks k body signature = rw (signature_of body signature) refl

read_inv :
    (c : Dict (Claim ℕ))
    → some claims ≡ some c
    → ◌≡◌ {A = Result String (Token ℕ)}
        (ok (record { valid = true; claims = claims }))
        (ok (record { valid = true; claims = c }))
read_inv c e = let k : claims ≡ c = cc in ap (λ x. ok (record { valid = true; claims = x })) k

read_alice : (body : String) (c : Dict (Claim ℕ)) → decode body ≡ some c → some claims ≡ some c
unfolding decode
read_alice body c e = elim (Bool-cases (str_eq body alice)) [
  | inl same ↦ rw same at e
  | inr other ↦ absurd (let k : none ≡ some c = rw other at e in cc)
]

unencode-encode :
    (secret input : String) → unencode (encode (mac secret input)) ≡ some (mac secret input)
unfolding unencode encode mac
unencode-encode secret input = elim (Bool-cases (str_eq secret "secret")) [
  | inl right ↦ rw right refl
  | inr wrong ↦ rw wrong refl
]

unsigned : (s : String) (o : Option String) → o ≢ some s → signed s o ≡ false
unfolding signed
unsigned s none h = refl
unsigned s (some t) h = str_eq_ne t s (λ e. h (ap some e))

same_mac : (secret input : String) → mac secret input ≡ mac secret ""
unfolding mac
same_mac secret input = refl

library : IsJwtLibrary parse encode unencode mac decode number 5
unfolding parse mac signed
library = record {
  decodes = unencode-encode;
  accepts = λ key secret body c read decoded timely. rw read (
      checks secret body (encode (mac secret ""))
      ∙ rw (unencode-encode secret "", signed, str_eq_refl (mac secret ""))
          (read_inv c (read_alice body c decoded)));
  rejects = λ key secret body signature read other. (
    "signature",
    rw read (
        checks secret body signature
        ∙ rw (unsigned (mac secret "") (unencode signature) other) refl),
  );
}

abbrev conf : WtAuthConfig
conf = record { token_source = "header"; token_name = "Authorization"; jwt_secret = "secret" }

abbrev made : String → HttpRequest
made secret = record {
  query = λ _. "";
  header = λ _. text_append "Bearer " (gen_jwt encode mac format secret "alice" 0);
  cookie = λ _. none;
}

abbrev request : String → AuthRequest HttpRequest
request secret = record { protocol = protocol_web_transport; http_request = some (made secret) }

abbrev server : Server
server = serve (λ _. false) (λ _. new_connection "" (pos 10))

abbrev recorder : Recorder
recorder = record { connects = "bob" ∷ []; messages = [] }

named : ◌≢◌ {A = String} "alice" ""
named = differs "alice" "" refl

read :
    decode (claims_text format "alice" 0 (0 + 86400))
    ≡ some (claims_of number "alice" 0 (0 + 86400))
unfolding decode
read = refl

authenticate_jwt-gen_jwt_example :
    let answer = authenticate_subject parse conf (request "secret") in
    (authenticate_jwt parse format conf (request "secret") ≡ ok "alice")
    × (answer ≡ ok "alice")
    × (user_of (authenticated true answer 0 server).0 0 ≡ "alice")
    × (last_uid (on_connect (user_of (authenticated true answer 0 server).0 0) recorder) ≡ "alice")
authenticate_jwt-gen_jwt_example =
    authenticate_jwt-gen_jwt parse format encode unencode mac format decode number 5 library conf
      (request "secret") (made "secret") "secret" "alice" 0 refl (in_header refl) 0 server recorder
      refl named read (omega arith) (omega arith)

other_signature :
    mac "guess" (signed_part encode mac format "alice" 0)
    ≢ mac "secret" (signed_part encode mac format "alice" 0)
unfolding mac
other_signature = differs "bad" "good" refl

authenticate_jwt-gen_jwt_rejected_example :
    (authenticate_jwt parse format conf (request "guess") ≡ err invalid_token)
    × (authenticate_subject parse conf (request "guess") ≡ err invalid_token)
authenticate_jwt-gen_jwt_rejected_example =
    authenticate_jwt-gen_jwt_rejected parse format encode unencode mac format decode number 5
      library conf (request "guess") (made "guess") "guess" "alice" 0 refl (in_header refl)
      other_signature

-- A clock that moves by one pause in each round, in which one more connection comes in.
abbrev clock : ℕ → ℕ
clock i = i * pause

abbrev got : ℕ → ℕ
got i = i

wait_conn-total_example :
    (b : Bool) × (wait_conn 4 clock got 2 25000000 ≡ some b)
    × ((b ≡ true) ↔ Finds clock got 2 (clock 0 + 25000000) 1)
wait_conn-total_example =
    wait_conn-total clock got (λ i h. omega arith) 3 2 25000000 (omega arith) (omega arith)
