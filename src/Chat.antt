-- ===== src/Chat.antt =====
-- example/internal/chat/handler.go: the chat handler, with its rooms, over the connections of a
-- server. A method goes from the rooms and the state of the connections to the new ones; each part
-- that stands under the mutex is one function.
pub mod Rooms
pub mod Reads
pub mod Delivery
use Prim.Native.String.{◌++◌ as text_append}
use go_wst.Prelude.{
  ℕ, String, str_eq, List, [], ◌∷◌, Option, none, some, Bool, true, false, if◌then◌else◌,
}
use go_wst.Prelude.Dict.{Dict, lookup, insert, delete}
use go_wst.Prelude.Result.{Result, ok, err}
use go_wst.Registry.{UserIndex, bind, unbind, conns_of}
use go_wst.Protocol.Message.{Bytes}
use go_wst.Protocol.Value.{Any, str}
use go_wst.Protocol.Connection.{Connections}

pub record Message : Type 0 where
  pub kind : String
  pub user_id : String
  pub room_id : String
  pub content : String

-- `rooms` is the map `roomID -> userID -> conn`, a `nil` inner map being a missing one.
pub record Handler : Type 0 where
  pub rooms : UserIndex
  pub user_to_room : Dict String

unfoldable pub new_handler : Handler
new_handler = record { rooms = []; user_to_room = [] }

-- What `SendJSON` is given: a `Message`, or a map from field names.
pub data Reply : Type 0 where
  message : Message → Reply
  fields : Dict String → Reply

abbrev system_message : String → Message
system_message text = record { kind = "system"; user_id = ""; room_id = ""; content = text }

abbrev error_message : String → Message
error_message text = record { kind = "error"; user_id = ""; room_id = ""; content = text }

-- The notices of `handleJoin` and of the two ways out of a room.
abbrev pub join_notice : String → Message
join_notice u = record {
  kind = "join";
  user_id = u;
  room_id = "";
  content = text_append u " joined the room";
}

abbrev pub leave_notice : String → Message
leave_notice u = record {
  kind = "leave";
  user_id = u;
  room_id = "";
  content = text_append u " left the room";
}

abbrev pub chat_message : String → String → String → Message
chat_message u room content = record {
  kind = "message";
  user_id = u;
  room_id = room;
  content = content;
}

-- `conn.Metadata()["roomId"].(string)`: the empty text where there is none, or no text.
unfoldable pub room_of : Dict Any → String
room_of m = elim (lookup "roomId" m) [ none ↦ "" | some v ↦ as_string v ]
  where
    as_string : Any → String
    as_string (str r) = r
    as_string _ = ""

-- `delete(room, userID)` in a room that is there, and the room too if that leaves it empty.
unfoldable pub leave_room : String → String → Handler → Handler
leave_room room u h = record h {
  rooms = unbind room u h.rooms;
  user_to_room = delete u h.user_to_room;
}

unfoldable pub join_room : String → String → ℕ → Handler → Handler
join_room room u c h = record h {
  rooms = bind room u c h.rooms;
  user_to_room = insert u room h.user_to_room;
}

-- The part of `OnDisconnect` under the mutex, with the room that the user was in, or the empty text.
unfoldable pub remove_user : String → Handler → Handler × String
unfolding leave_room
remove_user u h = elim (lookup u h.user_to_room) [
  | none ↦ (h, "")
  | some room ↦ (leave_room room u h, room)
]

-- `json.Marshal` of the two, and `json.Unmarshal`.
pub record Json : Type 0 where
  pub marshal : Message → Result String Bytes
  pub marshal_reply : Reply → Result String Bytes
  pub unmarshal : Bytes → Result String Message

module _ {S : Type 0} (conns : Connections S) (json : Json) where
  -- `SendJSON` of each kind of connection: `json.Marshal`, then `Send`.
  unfoldable pub send_json : ℕ → Reply → S → S × Option String
  send_json c v s = elim (json.marshal_reply v) [
    | err e ↦ (s, some e)
    | ok payload ↦ conns.send c payload s
  ]

  -- The loop of `broadcastToRoom`; an error is only logged.
  unfoldable pub send_all : Bytes → List ℕ → S → S
  send_all payload [] s = s
  send_all payload (c ∷ cs) s = send_all payload cs (conns.send c payload s).0

  unfoldable pub broadcast_to_room : String → Message → Handler → S → S
  unfolding send_all
  broadcast_to_room room msg h s = elim (json.marshal msg) [
    | err e ↦ s
    | ok payload ↦ send_all payload (conns_of room h.rooms) s
  ]

  unfoldable pub on_connect : ℕ → Handler × S → (Handler × S) × Option String
  unfolding send_json
  on_connect c (h, s) =
      let (s', e) = send_json c (message (system_message "Welcome to the chat!")) s in ((h, s'), e)

  -- The user of a connection, or the one that the message names.
  unfoldable pub user_or : ℕ → String → S → String
  user_or c u s = if str_eq (conns.user_id c s) "" then u else conns.user_id c s

  unfoldable pub handle_join : ℕ → Message → Handler × S → Handler × S
  unfolding user_or join_room send_json broadcast_to_room
  handle_join c msg (h, s) =
      let u = user_or c msg.user_id s in
      let s₁ = if str_eq (conns.user_id c s) "" then conns.set_user_id c msg.user_id s else s in
      let s₂ = conns.set_metadata c "roomId" (str msg.room_id) s₁ in
      let s₃ = conns.set_metadata c "username" (str msg.content) s₂ in
      let h' = join_room msg.room_id u c h in
      let joined = fields (
        ("type", "joined")
        ∷ ("roomId", msg.room_id)
        ∷ ("userId", u)
        ∷ ("content", "Successfully joined the room")
        ∷ []) in
      let (s₄, _) = send_json c joined s₃ in
      (h', broadcast_to_room msg.room_id (join_notice u) h' s₄)

  unfoldable pub handle_message : ℕ → Message → Handler × S → Handler × S
  unfolding user_or send_json broadcast_to_room
  handle_message c msg (h, s) =
      let room = room_of (conns.metadata c s) in
      if str_eq room ""
      then (
        h,
        (send_json c
            (message (
              error_message
                "you are not in a room, send {\"type\":\"join\",\"roomId\":\"room1\"} first"))
            s).0,
      )
      else (h, broadcast_to_room room (chat_message (user_or c msg.user_id s) room msg.content) h s)

  unfoldable pub handle_leave : ℕ → Message → Handler × S → Handler × S
  unfolding user_or leave_room broadcast_to_room
  handle_leave c msg (h, s) =
      let room = room_of (conns.metadata c s) in
      if str_eq room ""
      then (h, s)
      else (let u = user_or c msg.user_id s in
          let h' = leave_room room u h in (h', broadcast_to_room room (leave_notice u) h' s))

  -- The `switch` of `OnMessage`, after the message has got its user.
  unfoldable pub dispatch : ℕ → Message → Handler × S → Handler × S
  unfolding handle_join handle_message handle_leave send_json
  dispatch c msg (h, s) =
      if str_eq msg.kind "join"
      then handle_join c msg (h, s)
      else if str_eq msg.kind "message"
      then handle_message c msg (h, s)
      else if str_eq msg.kind "leave"
      then handle_leave c msg (h, s)
      else (
        h,
        (send_json c (message (error_message (text_append "unknown message type: " msg.kind))) s).0,
      )

  unfoldable pub on_message : ℕ → Bytes → Handler × S → (Handler × S) × Option String
  unfolding dispatch
  on_message c raw (h, s) = elim (json.unmarshal raw) [
    | err e ↦ ((h, s), some e)
    | ok msg ↦
        let u = if str_eq msg.user_id "" then conns.user_id c s else msg.user_id in
        (dispatch c (record msg { user_id = u }) (h, s), none)
  ]

  unfoldable pub on_disconnect : ℕ → Handler × S → Handler × S
  unfolding remove_user broadcast_to_room
  on_disconnect c (h, s) =
      let u = conns.user_id c s in
      if str_eq u ""
      then (h, s)
      else (let (h', room) = remove_user u h in
          if str_eq room "" then (h', s) else (h', broadcast_to_room room (leave_notice u) h' s))
