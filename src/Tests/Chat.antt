-- ===== src/Tests/Chat.antt =====
-- example/internal/chat/handler.go over WebSocket connections: the theorems at concrete inputs.
use go_wst.Prelude.{
  ℕ, ◌≡◌, ◌≢◌, ◌↔◌, ◌⊎◌, refl, sym, ap, ◌∙◌, true, false, String, str_eq, List, [], ◌∷◌, some, In,
}
use go_wst.Prelude.Int.{pos}
use go_wst.Prelude.Dict.{lookup, str_eq_refl}
use go_wst.Prelude.Result.{ok, err}
use go_wst.Registry.{IsIndex, bound, conns_of}
use go_wst.Protocol.Connection.{Connections}
use go_wst.Ws.Connection.{Connection, new_connection, user_id, buffered}
use go_wst.Protocol.Wrapper.{wrapped_conns}
use go_wst.Ws.Connection.Interface.{
  web_socket_wrapper, web_socket_conns, web_socket_conns-IsLawful, web_socket_conns-valid,
}
use go_wst.Protocol.Server.{after_sends}
use go_wst.Chat.{
  Handler, Message, Json, new_handler, user_or, handle_join, handle_message, on_disconnect,
}
use go_wst.Chat.Rooms.{Event, connects, receives, disconnects, run, run-new_handler}
use go_wst.Chat.Delivery.{handle_message-handle_join, on_disconnect-handle_join}

abbrev conns : Connections (ℕ → Connection)
conns = web_socket_conns (λ c v. buffered)

abbrev join : String → Message
join room = record { kind = "join"; user_id = "alice"; room_id = room; content = "Alice" }

abbrev hello : Message
hello = record { kind = "message"; user_id = ""; room_id = ""; content = "hello" }

-- A format with two texts, and one for all that is sent.
abbrev json : Json
json = record {
  marshal = λ msg. ok (1 ∷ []);
  marshal_reply = λ reply. ok (2 ∷ []);
  unmarshal =
      λ raw. elim raw [ [] ↦ err "unexpected end of JSON input" | ◌∷◌ b bs ↦ ok (join "r") ];
}

abbrev start : ℕ → Connection
start c = new_connection "a" (pos 10)

abbrev events : List Event
events = connects 0 ∷ receives 0 (7 ∷ []) ∷ receives 1 [] ∷ disconnects 1 ∷ []

run-new_handler_example :
    ((u r : String)
      → lookup u (run conns json events (new_handler, start)).0.user_to_room ≡ some r
      → (c : ℕ) × (bound r u (run conns json events (new_handler, start)).0.rooms ≡ some c))
    × IsIndex (run conns json events (new_handler, start)).0.rooms
run-new_handler_example = run-new_handler conns json events start

-- Two texts that a test tells apart.
differs : (s t : String) → str_eq s t ≡ false → s ≢ t
differs s t e p = let k : true ≡ false = sym (str_eq_refl s) ∙ ap (str_eq s) p ∙ e in absurd (cc)

handle_message-handle_join_example :
    (h' : Handler) × (s' : ℕ → Connection) × (handle_join conns json 0
        (join "r")
        (new_handler, start)
      ≡ (h', s'))
    × (handle_message conns json 0 hello (h', s')
        ≡ (h', after_sends (λ d. conns.send d (1 ∷ [])) (conns_of "r" h'.rooms) s'))
    × ((d : ℕ)
        → In d (conns_of "r" h'.rooms)
          ↔ ((d ≡ 0) ⊎ ((v : String) × (v ≢ "alice") × (bound "r" v new_handler.rooms ≡ some d))))
unfolding wrapped_conns web_socket_wrapper new_handler user_or user_id new_connection
handle_message-handle_join_example =
    handle_message-handle_join conns json (web_socket_conns-IsLawful (λ c v. buffered)) 0 (join "r")
      hello new_handler start (1 ∷ []) (web_socket_conns-valid (λ c v. buffered) start (λ c. tt))
      (record { distinct = tt; inner = tt }) (differs "r" "" refl) (differs "alice" "" refl) refl

on_disconnect-handle_join_example :
    bound "r" "alice"
      (on_disconnect conns json 0 (
        handle_join conns json 0
          (join "s")
          (handle_join conns json 0 (join "r") (new_handler, start)))).0.rooms
    ≡ some 0
unfolding wrapped_conns web_socket_wrapper user_or user_id new_connection
on_disconnect-handle_join_example =
    on_disconnect-handle_join conns json (web_socket_conns-IsLawful (λ c v. buffered)) 0 (join "r")
      (join "s") new_handler start (web_socket_conns-valid (λ c v. buffered) start (λ c. tt))
      (differs "alice" "" refl) (differs "r" "s" refl)
