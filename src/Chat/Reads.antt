-- ===== src/Chat/Reads.antt =====
-- example/internal/chat/handler.go over connections that keep the laws of their interface: what the
-- handler reads of a connection, and that no message that is sent changes it.
use go_wst.Prelude.{
  ℕ, ◌≡◌, ◌≢◌, refl, ◌∙◌, inl, inr, String, str_eq, List, [], ◌∷◌, ==_iff, some, true,
  if◌then◌else◌, Bool-cases, ◌==◌,
}
use go_wst.Prelude.Dict.{str_eq_ne, lookup}
use go_wst.Prelude.Result.{Result-cases}
use go_wst.Registry.{conns_of}
use go_wst.Protocol.Message.{Bytes}
use go_wst.Protocol.Value.{str}
use go_wst.Protocol.Connection.{Connections, IsLawful}
use go_wst.Chat.{
  Handler, Message, Json, Reply, join_room, user_or, send_json, send_all, broadcast_to_room,
  join_notice, handle_join,
}

module _ {S : Type 0} (conns : Connections S) (json : Json) (lawful : IsLawful conns) where
  -- What the handler reads of a connection: its user, and the room in its metadata.
  pub record Reads (c : ℕ) (u room : String) (s : S) : Type 0 where
    pub valid : lawful.IsValid s
    pub user : conns.user_id c s ≡ u
    pub in_room : lookup "roomId" (conns.metadata c s) ≡ some (str room)

  send-Reads :
      (c d : ℕ) (u room : String) (payload : Bytes) (s : S)
      → Reads c u room s
      → Reads c u room (conns.send d payload s).0
  send-Reads c d u room payload s v = record {
    valid = lawful.send-IsValid d payload s v.valid;
    user = lawful.user_id-send c d payload s v.valid ∙ v.user;
    in_room = rw (lawful.metadata-send c d payload s v.valid) v.in_room;
  }

  send_all-Reads :
      (c : ℕ) (u room : String) (payload : Bytes) (ds : List ℕ) (s : S)
      → Reads c u room s
      → Reads c u room (send_all conns json payload ds s)
  unfolding send_all
  send_all-Reads c u room payload [] s v = v
  send_all-Reads c u room payload (d ∷ ds) s v =
      send_all-Reads c u room payload ds _ (send-Reads c d u room payload s v)

  send_json-Reads :
      (c d : ℕ) (u room : String) (reply : Reply) (s : S)
      → Reads c u room s
      → Reads c u room (send_json conns json d reply s).0
  unfolding send_json
  send_json-Reads c d u room reply s v = elim (Result-cases (json.marshal_reply reply)) [
    | inl (payload, good) ↦ rw (good, send_json) (send-Reads c d u room payload s v)
    | inr (e, bad) ↦ rw (bad, send_json) v
  ]

  broadcast_to_room-Reads :
      (c : ℕ) (u room to : String) (msg : Message) (h : Handler) (s : S)
      → Reads c u room s
      → Reads c u room (broadcast_to_room conns json to msg h s)
  unfolding broadcast_to_room
  broadcast_to_room-Reads c u room to msg h s v = elim (Result-cases (json.marshal msg)) [
    | inl (payload, good) ↦
        rw (good, broadcast_to_room) (send_all-Reads c u room payload (conns_of to h.rooms) s v)
    | inr (e, bad) ↦ rw (bad, broadcast_to_room) v
  ]

  -- The metadata that `handleJoin` sets on a connection whose user is settled.
  set_metadata-Reads :
      (c : ℕ) (u room name : String) (s : S)
      → lawful.IsValid s
      → conns.user_id c s ≡ u
      → Reads c u room
          (conns.set_metadata c "username" (str name) (conns.set_metadata c "roomId" (str room) s))
  set_metadata-Reads c u room name s v e =
      let s₁ = conns.set_metadata c "roomId" (str room) s in
      let v₁ = lawful.set_metadata-IsValid c "roomId" (str room) s v in
      let self : (c == c) ≡ true = (==_iff c c).1 refl in
      record {
        valid = lawful.set_metadata-IsValid c "username" (str name) s₁ v₁;
        user =
            lawful.user_id-set_metadata c c "username" (str name) s₁ v₁
            ∙ lawful.user_id-set_metadata c c "roomId" (str room) s v
            ∙ e;
        in_room =
            rw
              (
                lawful.metadata-set_metadata c c "username" "roomId" (str name) s₁ v₁,
                lawful.metadata-set_metadata c c "roomId" "roomId" (str room) s v,
                self,
              )
              refl;
      }

  -- The user of a connection as `handleJoin` settles it.
  settle_user : ℕ → String → S → S
  settle_user c u s = if str_eq (conns.user_id c s) "" then conns.set_user_id c u s else s

  settle_user_lem :
      (c : ℕ) (u : String) (s : S)
      → lawful.IsValid s
      → lawful.IsValid (settle_user c u s)
        × (conns.user_id c (settle_user c u s) ≡ user_or conns json c u s)
  unfolding settle_user user_or
  settle_user_lem c u s v = elim (Bool-cases (str_eq (conns.user_id c s) "")) [
    | inl nobody ↦
        rw (nobody, settle_user, user_or)
          (
            lawful.set_user_id-IsValid c u s v,
            rw (lawful.user_id-set_user_id c c u s v, (==_iff c c).1 refl) refl,
          )
    | inr user ↦ rw (user, settle_user, user_or) (v, refl)
  ]

  pub handle_join-Reads :
      (c : ℕ) (msg : Message) (h : Handler) (s : S)
      → lawful.IsValid s
      → Reads c
          (user_or conns json c msg.user_id s)
          msg.room_id
          (handle_join conns json c msg (h, s)).1
  unfolding handle_join settle_user
  handle_join-Reads c msg h s v =
      let (settled, user) = settle_user_lem c msg.user_id s v in
      let u = user_or conns json c msg.user_id s in
      broadcast_to_room-Reads c u msg.room_id msg.room_id (join_notice u)
        (join_room msg.room_id u c h) _
        (send_json-Reads c c u msg.room_id _ _ (
          set_metadata-Reads c u msg.room_id msg.content (settle_user c msg.user_id s) settled
            user))

  pub known_user :
      (c : ℕ) (u room v : String) (s : S) → Reads c u room s → u ≢ "" → user_or conns json c v s ≡ u
  unfolding user_or
  known_user c u room v s r named = rw (r.user, user_or, str_eq_ne u "" named) refl
