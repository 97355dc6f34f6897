-- ===== src/Chat/Rooms.antt =====
-- example/internal/chat/handler.go: the two maps of the handler agree in one direction, whatever
-- the connections do.
use go_wst.Prelude.{
  ℕ, ◌≡◌, refl, inl, inr, String, str_eq, List, [], ◌∷◌, some, if◌then◌else◌, arith, Bool-cases,
  Option-cases,
}
use go_wst.Prelude.Dict.{str_eq_refl, lookup, lookup-insert, lookup-delete}
use go_wst.Prelude.Result.{Result-cases}
use go_wst.Registry.{IsIndex, bound, bound-bind, bound-unbind, bind-IsIndex, unbind-IsIndex}
use go_wst.Protocol.Message.{Bytes}
use go_wst.Protocol.Connection.{Connections}
use go_wst.Chat.{
  Handler, Message, Json, new_handler, join_room, leave_room, remove_user, room_of, on_connect,
  handle_join, handle_message, handle_leave, dispatch, on_message, on_disconnect,
}

-- No room is empty, and a user whose room is recorded is a member of that room.
pub record IsRooms (h : Handler) : Type 0 where
  pub index : IsIndex h.rooms
  pub located :
      (u r : String) → lookup u h.user_to_room ≡ some r → (c : ℕ) × (bound r u h.rooms ≡ some c)

some_inv : {r t : String} → some r ≡ some t → r ≡ t
some_inv e = cc

join_room-IsRooms :
    (room u : String) (c : ℕ) (h : Handler) → IsRooms h → IsRooms (join_room room u c h)
unfolding join_room
join_room-IsRooms room u c h v = record {
  index = bind-IsIndex room u c h.rooms v.index;
  located = λ w r e. elim (Bool-cases (str_eq u w)) [
    | inl same ↦
        let here : room ≡ r = some_inv (rw (lookup-insert u w room h.user_to_room, same) at e) in
        (c, rw (bound-bind room r u w c h.rooms, same, ← here, str_eq_refl room) refl)
    | inr other ↦
        let (d, old) = v.located w r (rw (lookup-insert u w room h.user_to_room, other) at e) in
        (d, rw (bound-bind room r u w c h.rooms, other) (ground (arith, old)))
  ];
}

leave_room-IsRooms : (room u : String) (h : Handler) → IsRooms h → IsRooms (leave_room room u h)
unfolding leave_room
leave_room-IsRooms room u h v = record {
  index = unbind-IsIndex room u h.rooms v.index;
  located = λ w r e. elim (Bool-cases (str_eq u w)) [
    | inl same ↦ absurd (ground (arith, e, same, lookup-delete u w h.user_to_room))
    | inr other ↦
        let (d, old) = v.located w r (rw (lookup-delete u w h.user_to_room, other) at e) in
        (d, rw (bound-unbind room r u w h.rooms, other) (ground (arith, old)))
  ];
}

remove_user-IsRooms : (u : String) (h : Handler) → IsRooms h → IsRooms (remove_user u h).0
unfolding remove_user
remove_user-IsRooms u h v = elim (Option-cases (lookup u h.user_to_room)) [
  | inl e ↦ rw (e, remove_user) v
  | inr (room, e) ↦ rw (e, remove_user) (leave_room-IsRooms room u h v)
]

-- What happens to the handler: the server calls a method for a connection.
pub data Event : Type 0 where
  connects : ℕ → Event
  receives : ℕ → Bytes → Event
  disconnects : ℕ → Event

module _ {S : Type 0} (conns : Connections S) (json : Json) where
  unfoldable pub step : Event → Handler × S → Handler × S
  unfolding on_connect on_message on_disconnect
  step (connects c) w = (on_connect conns json c w).0
  step (receives c raw) w = (on_message conns json c raw w).0
  step (disconnects c) w = on_disconnect conns json c w

  unfoldable pub run : List Event → Handler × S → Handler × S
  unfolding step
  run [] w = w
  run (e ∷ events) w = run events (step e w)

  handle_message-IsRooms :
      (c : ℕ) (msg : Message) (h : Handler) (s : S)
      → IsRooms h
      → IsRooms (handle_message conns json c msg (h, s)).0
  unfolding handle_message
  handle_message-IsRooms c msg h s v =
      elim (Bool-cases (str_eq (room_of (conns.metadata c s)) "")) [
        | inl out ↦ rw (out, handle_message) v
        | inr inside ↦ rw (inside, handle_message) v
      ]

  handle_leave-IsRooms :
      (c : ℕ) (msg : Message) (h : Handler) (s : S)
      → IsRooms h
      → IsRooms (handle_leave conns json c msg (h, s)).0
  unfolding handle_leave
  handle_leave-IsRooms c msg h s v = elim (Bool-cases (str_eq (room_of (conns.metadata c s)) "")) [
    | inl out ↦ rw (out, handle_leave) v
    | inr inside ↦ rw (inside, handle_leave) (leave_room-IsRooms _ _ h v)
  ]

  dispatch-IsRooms :
      (c : ℕ) (msg : Message) (h : Handler) (s : S)
      → IsRooms h
      → IsRooms (dispatch conns json c msg (h, s)).0
  unfolding dispatch handle_join handle_message handle_leave
  dispatch-IsRooms c msg h s v = elim (Bool-cases (str_eq msg.kind "join")) [
    | inl join ↦ rw (join, dispatch) (join_room-IsRooms msg.room_id _ c h v)
    | inr other ↦
        rw (other, dispatch)
          (elim (Bool-cases (str_eq msg.kind "message")) [
            | inl said ↦ rw said (handle_message-IsRooms c msg h s v)
            | inr other' ↦ rw (other') (elim (Bool-cases (str_eq msg.kind "leave")) [
              | inl leave ↦ rw leave (handle_leave-IsRooms c msg h s v)
              | inr unknown ↦ rw unknown v
            ])
          ])
  ]

  on_disconnect-IsRooms :
      (c : ℕ) (h : Handler) (s : S) → IsRooms h → IsRooms (on_disconnect conns json c (h, s)).0
  unfolding on_disconnect
  on_disconnect-IsRooms c h s v = elim (Bool-cases (str_eq (conns.user_id c s) "")) [
    | inl nobody ↦ rw (nobody, on_disconnect) v
    | inr user ↦
        rw (user, on_disconnect)
          (elim (Bool-cases (str_eq (remove_user (conns.user_id c s) h).1 "")) [
            | inl out ↦ rw out (remove_user-IsRooms (conns.user_id c s) h v)
            | inr inside ↦ rw inside (remove_user-IsRooms (conns.user_id c s) h v)
          ])
  ]

  -- The message with its user, as `OnMessage` makes it.
  own_user : ℕ → S → Message → Message
  own_user c s msg = record msg {
    user_id = if str_eq msg.user_id "" then conns.user_id c s else msg.user_id;
  }

  step-IsRooms : (e : Event) (w : Handler × S) → IsRooms w.0 → IsRooms (step e w).0
  unfolding step on_connect on_message own_user
  step-IsRooms (connects c) w v = v
  step-IsRooms (receives c raw) (h, s) v = elim (Result-cases (json.unmarshal raw)) [
    | inr (e, bad) ↦ rw (bad, step, on_message) v
    | inl (msg, good) ↦ rw (good, step, on_message) (dispatch-IsRooms c (own_user c s msg) h s v)
  ]
  step-IsRooms (disconnects c) (h, s) v = on_disconnect-IsRooms c h s v

  run-IsRooms : (events : List Event) (w : Handler × S) → IsRooms w.0 → IsRooms (run events w).0
  unfolding run
  run-IsRooms [] w v = v
  run-IsRooms (e ∷ events) w v = run-IsRooms events (step e w) (step-IsRooms e w v)

  -- Whatever connections come, send and go, each user whose room a new handler has recorded since
  -- is a member of that room, so that `OnDisconnect` looks in the right one; the maps hold each key
  -- once, and no room is empty.
  pub run-new_handler :
      (events : List Event) (s : S)
      → ((u r : String)
          → lookup u (run events (new_handler, s)).0.user_to_room ≡ some r
          → (c : ℕ) × (bound r u (run events (new_handler, s)).0.rooms ≡ some c))
        × IsIndex (run events (new_handler, s)).0.rooms
  unfolding new_handler lookup
  run-new_handler events s =
      let v =
        run-IsRooms events (new_handler, s)
          (record {
            index = record { distinct = tt; inner = tt };
            located = λ u r e. absurd (cc);
          }) in
      (v.located, v.index)
