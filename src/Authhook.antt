-- ===== src/Authhook.antt =====
-- example/authhook/main.go: the tokens that it makes, the handler that records what happens, and the
-- WebSocket server that it starts. The dialling and the printing of `main` are not modelled.
pub mod Tokens
pub mod Waiting
use Prim.Native.String.{◌++◌ as text_append}
use go_wst.Prelude.{
  ℕ, ◌+◌, String, List, [], ◌∷◌, ◌++◌, Option, none, some, Bool, true, false, if◌then◌else◌, ltb,
  leb, zero, suc,
}
use go_wst.Prelude.Int.{pos}
use go_wst.Protocol.Message.{Bytes}
use go_wst.Ws.Connection.{Connection}
use go_wst.Ws.Server.{Server, new_server}

abbrev pub jwt_header : String
jwt_header = "{\"alg\":\"HS256\",\"typ\":\"JWT\"}"

-- `encode` is `b64url`, `mac` is the HMAC with SHA-256 under a secret, and `format` prints a number.
module _ (encode : String → String) (mac : String → String → String) (format : ℕ → String) where
  -- The claims of a token that is made at the time `now`, in seconds.
  unfoldable pub payload : String → ℕ → String
  payload user now = text_append "{\"sub\":\"" (
      text_append user (
        text_append "\",\"iat\":" (
          text_append (format now)
            (text_append ",\"exp\":" (text_append (format (now + 86400)) "}")))))

  unfoldable pub signed_part : String → ℕ → String
  unfolding payload
  signed_part user now =
      text_append (encode jwt_header) (text_append "." (encode (payload user now)))

  unfoldable pub gen_jwt : String → String → ℕ → String
  unfolding signed_part
  gen_jwt secret user now =
      let input = signed_part user now in
      text_append input (text_append "." (encode (mac secret input)))

-- The handler `h`.
pub record Recorder : Type 0 where
  pub connects : List String
  pub messages : List Bytes

unfoldable pub on_connect : String → Recorder → Recorder
on_connect user h = record h { connects = h.connects ++ user ∷ [] }

unfoldable pub on_message : Bytes → Recorder → Recorder
on_message msg h = record h { messages = h.messages ++ msg ∷ [] }

unfoldable pub last_of : List String → String
last_of [] = ""
last_of (u ∷ []) = u
last_of (u ∷ v ∷ us) = last_of (v ∷ us)

unfoldable pub last_uid : Recorder → String
unfolding last_of
last_uid h = last_of h.connects

-- `waitConn`: in its round `i`, from 1 on, the loop reads the clock and then the number of
-- connections. The deadline is counted from the reading 0. It is `none` when the fuel is used up.
module _ (clock got : ℕ → ℕ) (n deadline : ℕ) where
  unfoldable pub wait_loop : ℕ → ℕ → Option Bool
  wait_loop zero i = none
  wait_loop (suc fuel) i =
      let rest = wait_loop fuel (suc i) in
      if ltb (clock i) deadline then if leb n (got i) then some true else rest else some false

unfoldable pub wait_conn : ℕ → (ℕ → ℕ) → (ℕ → ℕ) → ℕ → ℕ → Option Bool
unfolding wait_loop
wait_conn fuel clock got n timeout = wait_loop clock got n (clock 0 + timeout) fuel 1

-- The server of `serve`, with its limit and its write timeout in nanoseconds.
unfoldable pub serve : (ℕ → Bool) → (ℕ → Connection) → Server
serve write_fails conns = new_server (pos 100) true (pos 5000000000) write_fails conns
