-- ===== src/Chat/Delivery.antt =====
-- example/internal/chat/handler.go over connections that keep the laws of their interface: who gets
-- a message, and what a connection that joins a second room leaves behind.
use go_wst.Prelude.{
  ℕ, ◌≡◌, ◌≢◌, ◌↔◌, ◌⊎◌, ap₂, refl, sym, ◌∙◌, inl, inr, String, str_eq, List, [], ◌∷◌, In, some,
  arith, Bool-cases,
}
use go_wst.Prelude.Dict.{str_eq_refl, str_eq_ne, lookup, lookup-insert_self}
use go_wst.Prelude.Result.{ok}
use go_wst.Registry.{
  IsIndex, bound, conns_of, bind, bound-bind, bound-unbind, bind-IsIndex, In-conns_of,
}
use go_wst.Protocol.Message.{Bytes}
use go_wst.Protocol.Server.{after_sends}
use go_wst.Protocol.Connection.{Connections, IsLawful}
use go_wst.Chat.{
  Handler, Message, Json, join_room, leave_room, remove_user, room_of, user_or, send_all,
  broadcast_to_room, chat_message, handle_join, handle_message, on_disconnect,
}
use go_wst.Chat.Reads.{Reads, handle_join-Reads, known_user}

module _ {S : Type 0} (conns : Connections S) (json : Json) (lawful : IsLawful conns) where
  members_after_join :
      (room u : String) (c d : ℕ) (h : Handler)
      → IsIndex h.rooms
      → In d (conns_of room (join_room room u c h).rooms)
        ↔ ((d ≡ c) ⊎ ((v : String) × (v ≢ u) × (bound room v h.rooms ≡ some d)))
  unfolding join_room
  members_after_join room u c d h v =
      let members = In-conns_of room d (bind room u c h.rooms) (bind-IsIndex room u c h.rooms v) in
      (
        (λ among.
            let (w, e) = members.0 among in
            elim (Bool-cases (str_eq u w)) [
              | inl same ↦ inl (
                  some_eq
                    (sym e ∙ rw (bound-bind room room u w c h.rooms, str_eq_refl room, same) refl))
              | inr other ↦ inr (
                w,
                (λ q. absurd (ground (arith, other, q, str_eq_refl w))),
                rw (bound-bind room room u w c h.rooms, str_eq_refl room, other) at e,
              )
            ]),
        λ how. elim how [
          | inl here ↦ members.1 (
            u,
            rw (bound-bind room room u u c h.rooms, str_eq_refl room, str_eq_refl u, here) refl,
          )
          | inr (w, ne, e) ↦ members.1 (
            w,
            rw
                (
                  bound-bind room room u w c h.rooms,
                  str_eq_refl room,
                  str_eq_ne u w (λ q. ne (sym q)),
                )
                e,
          )
        ],
      )
    where
      some_eq : {x y : ℕ} → some x ≡ some y → x ≡ y
      some_eq e = cc

  handle_message-broadcast_to_room :
      (c : ℕ) (u room : String) (msg : Message) (h : Handler) (s : S)
      → Reads conns json lawful c u room s
      → u ≢ ""
      → room ≢ ""
      → handle_message conns json c msg (h, s)
        ≡ (h, broadcast_to_room conns json room (chat_message u room msg.content) h s)
  unfolding handle_message room_of
  handle_message-broadcast_to_room c u room msg h s r named inside =
      let at_room : room_of (conns.metadata c s) ≡ room = rw (room_of, r.in_room) refl in
      rw
        (
          handle_message,
          at_room,
          str_eq_ne room "" inside,
          known_user conns json lawful c u room msg.user_id s r named,
        )
        refl

  send_all-after_sends :
      (payload : Bytes) (cs : List ℕ) (s : S)
      → send_all conns json payload cs s ≡ after_sends (λ c. conns.send c payload) cs s
  unfolding send_all
  send_all-after_sends payload [] s = refl
  send_all-after_sends payload (c ∷ cs) s =
      send_all-after_sends payload cs (conns.send c payload s).0

  -- A connection that has a user, of its own or from the message, and joins a room with a name, and
  -- then sends a message that can be encoded, has it sent, with its user and room, once to each of a
  -- list of connections, one after the other, whatever errors they return; in the list are just the
  -- connection itself and those that were members of the room under another user.
  pub handle_message-handle_join :
      (c : ℕ) (join msg : Message) (h : Handler) (s : S) (payload : Bytes)
      → lawful.IsValid s
      → IsIndex h.rooms
      → join.room_id ≢ ""
      → user_or conns json c join.user_id s ≢ ""
      → json.marshal (chat_message (user_or conns json c join.user_id s) join.room_id msg.content)
        ≡ ok payload
      → (h' : Handler) × (s' : S) × (handle_join conns json c join (h, s) ≡ (h', s'))
        × (handle_message conns json c msg (h', s')
            ≡ (h', after_sends (λ d. conns.send d payload) (conns_of join.room_id h'.rooms) s'))
        × ((d : ℕ)
            → In d (conns_of join.room_id h'.rooms) ↔ (
                (d ≡ c)
                ⊎ ((v : String) × (v ≢ user_or conns json c join.user_id s)
                    × (bound join.room_id v h.rooms ≡ some d))))
  unfolding handle_join broadcast_to_room
  handle_message-handle_join c join msg h s payload v w in_room named encoded =
      let u = user_or conns json c join.user_id s in
      let h' = join_room join.room_id u c h in
      let s' = (handle_join conns json c join (h, s)).1 in
      let r = handle_join-Reads conns json lawful c join h s v in
      (
        h',
        s',
        refl,
        rw
            (
              handle_message-broadcast_to_room c u join.room_id msg h' s' r named in_room,
              broadcast_to_room,
              encoded,
              send_all-after_sends payload (conns_of join.room_id h'.rooms) s',
            )
            refl,
        λ d. members_after_join join.room_id u c d h w,
      )

  handle_join-join_room :
      (c : ℕ) (msg : Message) (h : Handler) (s : S)
      → (handle_join conns json c msg (h, s)).0
        ≡ join_room msg.room_id (user_or conns json c msg.user_id s) c h
  unfolding handle_join
  handle_join-join_room c msg h s = refl

  on_disconnect-leave_room :
      (c : ℕ) (u room : String) (h : Handler) (s : S)
      → Reads conns json lawful c u room s
      → u ≢ ""
      → lookup u h.user_to_room ≡ some room
      → (on_disconnect conns json c (h, s)).0 ≡ leave_room room u h
  unfolding on_disconnect remove_user
  on_disconnect-leave_room c u room h s r named here =
      rw (r.user, on_disconnect, remove_user, str_eq_ne u "" named, here)
        (elim (Bool-cases (str_eq room "")) [
          | inl e ↦ rw (e, r.user) refl
          | inr e ↦ rw (e, r.user) refl
        ])

  join_room_records :
      (room u : String) (c : ℕ) (h : Handler)
      → lookup u (join_room room u c h).user_to_room ≡ some room
  unfolding join_room
  join_room_records room u c h = lookup-insert_self u room h.user_to_room

  left_behind :
      (a b u : String) (c : ℕ) (h : Handler)
      → a ≢ b
      → bound a u (leave_room b u (join_room b u c (join_room a u c h))).rooms ≡ some c
  unfolding leave_room join_room
  left_behind a b u c h apart =
      rw
        (
          bound-unbind b a u u (bind b u c (bind a u c h.rooms)),
          bound-bind b a u u c (bind a u c h.rooms),
          bound-bind a a u u c h.rooms,
          str_eq_ne b a (λ q. apart (sym q)),
          str_eq_refl a,
          str_eq_refl u,
        )
        refl

  -- A connection with a user that joins one room, then another, and disconnects, remains a member of
  -- the first room: `handleJoin` records only the last room, and `OnDisconnect` removes it from that.
  pub on_disconnect-handle_join :
      (c : ℕ) (first second : Message) (h : Handler) (s : S)
      → lawful.IsValid s
      → user_or conns json c first.user_id s ≢ ""
      → first.room_id ≢ second.room_id
      → bound first.room_id
          (user_or conns json c first.user_id s)
          (on_disconnect conns json c
            (handle_join conns json c second (handle_join conns json c first (h, s)))).0.rooms
        ≡ some c
  on_disconnect-handle_join c first second h s v named apart =
      let u = user_or conns json c first.user_id s in
      let w₁ = handle_join conns json c first (h, s) in
      let w₂ = handle_join conns json c second w₁ in
      let r₁ = handle_join-Reads conns json lawful c first h s v in
      let same = known_user conns json lawful c u first.room_id second.user_id w₁.1 r₁ named in
      let r₂ : Reads conns json lawful c u second.room_id w₂.1 =
        rw same at (handle_join-Reads conns json lawful c second w₁.0 w₁.1 r₁.valid) in
      let joined : w₂.0 ≡ join_room second.room_id u c (join_room first.room_id u c h) =
        handle_join-join_room c second w₁.0 w₁.1
        ∙ ap₂ (λ w g. join_room second.room_id w c g) same (handle_join-join_room c first h s) in
      let here : lookup u w₂.0.user_to_room ≡ some second.room_id =
        rw joined (join_room_records second.room_id u c (join_room first.room_id u c h)) in
      rw (on_disconnect-leave_room c u second.room_id w₂.0 w₂.1 r₂ named here, joined)
        (left_behind first.room_id second.room_id u c h apart)
