-- ===== src/Tests/Notification.antt =====
-- example/notification/main.go over WebSocket connections: the theorems at concrete inputs.
use go_wst.Prelude.{ℕ, ◌+◌, ◌≡◌, refl, String, List, [], ◌∷◌, none, length, take, drop, arith}
use go_wst.Prelude.Int.{pos}
use go_wst.Prelude.Dict.{lookup, insert}
use go_wst.Prelude.Result.{ok}
use go_wst.Protocol.Message.{Message}
use go_wst.Protocol.Connection.{Connections, IsLawful}
use go_wst.Ws.Connection.{Connection, new_connection, buffered, metadata, set_metadata}
use go_wst.Protocol.Wrapper.{wrapped_conns}
use go_wst.Ws.Connection.Interface.{
  web_socket_wrapper, web_socket_conns, web_socket_conns-IsLawful, web_socket_conns-valid,
}
use go_wst.Stateless.Store.{MemoryStore, new_memory_store, messages_of, memory_message_store}
use go_wst.Protocol.Value.{int}
use go_wst.Stateless.Store
use go_wst.Stateless.Store.History
use go_wst.Stateless.Store.History.{Call, stores, run-IsNumbered}
use go_wst.Stateless.Store.Numbering.{IsNumbered}
use go_wst.Notification.{Request, Json, last_seen, on_message}
use go_wst.Notification.Fetching.{noted, delivered, encoded, Seen, on_message-fetch_messages}

abbrev conns : Connections (ℕ → Connection)
conns = web_socket_conns (λ c v. buffered)

abbrev lawful : IsLawful conns
lawful = web_socket_conns-IsLawful (λ c v. buffered)

abbrev text : Message
text = record { id = pos 0; timestamp = pos 0; kind = "text"; topic = "r"; payload = 7 ∷ [] }

-- Two messages of the room "r", and one of the room "s".
abbrev calls : List Call
calls = stores (pos 5) "r" text ∷ stores (pos 6) "r" text ∷ stores (pos 7) "s" text ∷ []

abbrev store : MemoryStore
store = History.run new_memory_store calls

store-IsNumbered : (room : String) → IsNumbered store room
store-IsNumbered room = (run-IsNumbered calls room (omega arith)).1

abbrev request : String → Request
request room = record {
  kind = "fetch";
  room_id = room;
  user_id = "";
  username = "";
  content = "";
  since_id = pos 0;
}

-- The empty text asks for the room "r", every other one for "s".
abbrev json : Json
json = record {
  marshal = λ reply. ok (2 ∷ []);
  unmarshal = λ raw. elim raw [ [] ↦ ok (request "r") | ◌∷◌ b bs ↦ ok (request "s") ];
  text_bytes = λ s. [];
}

abbrev start : ℕ → Connection
start c = new_connection "a" (pos 10)

start-Seen : Seen conns lawful json (pos 7) 0 0 start
unfolding wrapped_conns web_socket_wrapper metadata new_connection last_seen lookup
start-Seen = record {
  valid = web_socket_conns-valid (λ c v. buffered) start (λ c. tt);
  last = refl;
}

on_message-fetch_messages_example :
    (s' : ℕ → Connection) × (on_message conns
        (memory_message_store (pos 7))
        json
        0
        []
        (store, start)
      ≡ ((store, s'), none))
    × (s'
        ≡ noted conns 0 0
            (take 100 (drop 0 (messages_of store "r")))
            (delivered conns 0 (encoded json (take 100 (drop 0 (messages_of store "r")))) start))
    × Seen conns lawful json (pos 7) 0 (0 + length (take 100 (drop 0 (messages_of store "r")))) s'
on_message-fetch_messages_example =
    on_message-fetch_messages conns lawful json (pos 7) 0 0 [] (request "r") store start start-Seen
      (store-IsNumbered "r") refl refl refl

-- The connection has seen both messages of the room "r".
abbrev seen : ℕ → Connection
seen c = set_metadata "lastId" (int (pos 2)) (new_connection "a" (pos 10))

seen-Seen : Seen conns lawful json (pos 7) 0 2 seen
unfolding wrapped_conns web_socket_wrapper metadata new_connection last_seen lookup set_metadata
    insert
seen-Seen = record {
  valid = web_socket_conns-valid (λ c v. buffered) seen (λ c. (refl, tt));
  last = refl;
}

one_message : length (messages_of store "s") ≡ 1
unfolding messages_of History.run Store.store new_memory_store lookup insert Store.last_id_of
one_message = refl
