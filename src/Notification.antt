-- ===== src/Notification.antt =====
-- example/notification/main.go: the handler that answers requests from a message store. A method
-- goes from the states of the store and of the connections to the new ones.
pub mod Fetching
use go_wst.Prelude.{ℕ, zero, String, str_eq, List, [], ◌∷◌, Option, none, some, if◌then◌else◌}
use go_wst.Prelude.Int.{ℤ, pos, negsuc}
use go_wst.Prelude.Dict.{Dict, lookup}
use go_wst.Prelude.Result.{Result, ok, err}
use go_wst.Protocol.Message.{Bytes, Message, MessageStore}
use go_wst.Protocol.Value.{Any, str, int}
use go_wst.Protocol.Connection.{Connections}

-- The fields that `OnMessage` reads of a message of a client.
pub record Request : Type 0 where
  pub kind : String
  pub room_id : String
  pub user_id : String
  pub username : String
  pub content : String
  pub since_id : ℤ

-- What `SendJSON` is given: the answers by their fields, or a stored message.
pub data Reply : Type 0 where
  joined : String → String → Reply
  stored : Message → Reply
  failed : Reply
  acknowledged : Reply

-- `conn.Metadata()["lastId"].(int64)`: zero where there is none, or no number.
unfoldable pub last_seen : Dict Any → ℤ
last_seen m = elim (lookup "lastId" m) [ none ↦ pos 0 | some v ↦ as_int v ]
  where
    as_int : Any → ℤ
    as_int (int n) = n
    as_int _ = pos 0

abbrev or_if_zero : ℤ → ℤ → ℤ
or_if_zero (pos zero) default = default
or_if_zero n default = n

-- `messages[len(messages)-1].ID`
unfoldable pub last_message_id : Message → List Message → ℤ
last_message_id m [] = m.id
last_message_id m (m' ∷ ms) = last_message_id m' ms

-- `encoding/json`; the text of a message is `[]byte(data.Content)`.
pub record Json : Type 0 where
  pub marshal : Reply → Result String Bytes
  pub unmarshal : Bytes → Result String Request
  pub text_bytes : String → Bytes

module _ {S T : Type 0} (conns : Connections S) (messages : MessageStore T) (json : Json) where
  unfoldable pub send_json : ℕ → Reply → S → S × Option String
  send_json c v s = elim (json.marshal v) [
    | err e ↦ (s, some e)
    | ok payload ↦ conns.send c payload s
  ]

  -- The loop over the messages; an error is only logged.
  unfoldable pub send_messages : ℕ → List Message → S → S
  unfolding send_json
  send_messages c [] s = s
  send_messages c (m ∷ ms) s = send_messages c ms (send_json c (stored m) s).0

  unfoldable pub remember : ℕ → List Message → S → S
  unfolding last_message_id
  remember c [] s = s
  remember c (m ∷ ms) s = conns.set_metadata c "lastId" (int (last_message_id m ms)) s

  unfoldable pub fetch_messages : ℕ → Request → T × S → (T × S) × Option String
  unfolding last_seen send_messages remember
  fetch_messages c req (t, s) =
      let since = or_if_zero req.since_id (last_seen (conns.metadata c s)) in
      elim (messages.fetch t req.room_id since (pos 100)) [
        | err e ↦ ((t, s), none)
        | ok ms ↦ ((t, remember c ms (send_messages c ms s)), none)
      ]

  unfoldable pub store_message : ℕ → Request → T × S → (T × S) × Option String
  unfolding send_json
  store_message c req (t, s) =
      let msg : Message = record {
        id = pos 0;
        timestamp = pos 0;
        kind = "text";
        topic = req.room_id;
        payload = json.text_bytes req.content;
      } in
      elim (messages.store t req.room_id msg) [
        | err e ↦ let (s', e') = send_json c failed s in ((t, s'), e')
        | ok t' ↦ let (s', e') = send_json c acknowledged s in ((t', s'), e')
      ]

  unfoldable pub join : ℕ → Request → T × S → (T × S) × Option String
  unfolding send_json
  join c req (t, s) =
      let s₁ = conns.set_user_id c req.user_id s in
      let s₂ = conns.set_metadata c "roomId" (str req.room_id) s₁ in
      let s₃ = conns.set_metadata c "username" (str req.username) s₂ in
      let (s₄, e) = send_json c (joined req.room_id req.user_id) s₃ in ((t, s₄), e)

  -- The `switch` of `OnMessage`; another kind of request has no effect.
  unfoldable pub dispatch : ℕ → Request → T × S → (T × S) × Option String
  unfolding join fetch_messages store_message
  dispatch c req w =
      if str_eq req.kind "join"
      then join c req w
      else if str_eq req.kind "fetch"
      then fetch_messages c req w
      else if str_eq req.kind "message"
      then store_message c req w
      else (w, none)

  unfoldable pub on_message : ℕ → Bytes → T × S → (T × S) × Option String
  unfolding dispatch
  on_message c raw w = elim (json.unmarshal raw) [ err e ↦ (w, some e) | ok req ↦ dispatch c req w ]
