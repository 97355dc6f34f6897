-- ===== src/Stateless/Store.antt =====
-- stateless/store.go, `MemoryStore`. The mutex is held over each whole operation, so an operation
-- is one step; the clock is an argument.
pub mod Fetch
pub mod Numbering
pub mod History
pub mod Polling
use go_wst.Prelude.{
  ℕ, ◌+◌, String, List, [], ◌∷◌, ◌++◌, Option, none, some, Bool, true, false, if◌then◌else◌, length,
}
use go_wst.Prelude.Int.{ℤ, pos, ltb_ℤ, leb_ℤ, inc64}
use go_wst.Prelude.Dict.{Dict, lookup, insert, delete}
use go_wst.Prelude.Result.{Result, ok}
use go_wst.Protocol.Message.{Message, MessageStore}

pub record MemoryStore : Type 0 where
  pub messages : Dict (List Message)
  pub last_id : Dict ℤ

unfoldable pub new_memory_store : MemoryStore
new_memory_store = record { messages = []; last_id = [] }

-- The loop of `Fetch` over the messages that are left, with what it has collected.
unfoldable pub fetch_loop : ℤ → ℤ → List Message → List Message → List Message
fetch_loop since limit result [] = result
fetch_loop since limit result (msg ∷ rest) =
    let taken = result ++ msg ∷ [] in
    let more = fetch_loop since limit taken rest in
    let skip = fetch_loop since limit result rest in
    if ltb_ℤ since msg.id then (if leb_ℤ limit (pos (length taken)) then taken else more) else skip

unfoldable pub fetch : MemoryStore → String → ℤ → ℤ → List Message
unfolding fetch_loop
fetch s user since limit = elim (lookup user s.messages) [
  | none ↦ []
  | some msgs ↦ fetch_loop since limit [] msgs
]

unfoldable pub ack : MemoryStore → String → ℤ → MemoryStore
ack s user msg_id = s

-- A missing key reads as zero, or as no messages.
unfoldable pub last_id_of : MemoryStore → String → ℤ
last_id_of s user = elim (lookup user s.last_id) [ none ↦ pos 0 | some n ↦ n ]

unfoldable pub messages_of : MemoryStore → String → List Message
messages_of s user = elim (lookup user s.messages) [ none ↦ [] | some ms ↦ ms ]

unfoldable pub store : ℤ → MemoryStore → String → Message → MemoryStore
unfolding last_id_of messages_of
store now s user msg =
    let id = inc64 (last_id_of s user) in
    let stamped = record msg { id = id; timestamp = now } in
    record {
      messages = insert user (messages_of s user ++ stamped ∷ []) s.messages;
      last_id = insert user id s.last_id;
    }

unfoldable pub clear : MemoryStore → String → MemoryStore
clear s user = record { messages = delete user s.messages; last_id = delete user s.last_id }

unfoldable pub clear_all : MemoryStore → MemoryStore
clear_all s = record { messages = []; last_id = [] }

-- The store as a `MessageStore`, at a clock; no operation fails.
unfoldable pub memory_message_store : ℤ → MessageStore MemoryStore
memory_message_store now = record {
  fetch = λ s user since limit. ok (fetch s user since limit);
  ack = λ s user msg_id. ok (ack s user msg_id);
  store = λ s user msg. ok (store now s user msg);
}
