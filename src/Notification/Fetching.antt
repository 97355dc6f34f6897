-- ===== src/Notification/Fetching.antt =====
-- example/notification/main.go, the request `fetch`, over a memory store.
use go_wst.Prelude.{
  ℕ, zero, suc, ◌+◌, ◌≤◌, ◌≡◌, refl, ap, subst, ◌∙◌, String, List, [], ◌∷◌, none, length, take,
  drop, arith, inl, inr, ==_iff,
}
use go_wst.Prelude.Int.{ℤ, pos}
use go_wst.Prelude.Result.{Result, ok, err, Result-cases}
use go_wst.Protocol.Message.{Bytes, Message}
use go_wst.Protocol.Value.{int}
use go_wst.Protocol.Connection.{Connections, IsLawful}
use go_wst.Stateless.Store.{MemoryStore, fetch, messages_of, memory_message_store}
use go_wst.Stateless.Store.Numbering.{CountsFrom, IsNumbered}
use go_wst.Stateless.Store.Polling.{fetch_next}
use go_wst.Notification.{
  Request, Reply, stored, Json, last_seen, last_message_id, send_json, send_messages, remember,
  fetch_messages, dispatch, on_message,
}

CountsFrom-take : (m n : ℕ) (ms : List Message) → CountsFrom n ms → CountsFrom n (take m ms)
CountsFrom-take zero n ms v = tt
CountsFrom-take (suc m) n [] v = tt
CountsFrom-take (suc m) n (x ∷ ms) v = (v.0, CountsFrom-take m (n + 1) ms v.1)

CountsFrom-drop : (k n : ℕ) (ms : List Message) → CountsFrom n ms → CountsFrom (n + k) (drop k ms)
CountsFrom-drop zero n ms v = subst (λ i. CountsFrom i ms) (omega arith) v
CountsFrom-drop (suc k) n [] v = tt
CountsFrom-drop (suc k) n (x ∷ ms) v =
    subst (λ i. CountsFrom i (drop k ms)) (omega arith) (CountsFrom-drop k (n + 1) ms v.1)

last_message_id_lem :
    (n : ℕ) (m : Message) (ms : List Message)
    → CountsFrom n (m ∷ ms)
    → last_message_id m ms ≡ pos (n + length (m ∷ ms))
unfolding last_message_id
last_message_id_lem n m [] v = v.0
last_message_id_lem n m (m' ∷ ms) v = last_message_id_lem (n + 1) m' ms v.1 ∙ ap pos (omega arith)

drop_short {ℓ} : {A : Type ℓ} (k : ℕ) (xs : List A) → length xs ≤ k → drop k xs ≡ []
drop_short zero [] h = refl
drop_short zero (x ∷ xs) h = absurd (omega arith)
drop_short (suc k) [] h = refl
drop_short (suc k) (x ∷ xs) h = drop_short k xs (omega arith)

abbrev pub with_encoding : Result String Bytes → List Bytes → List Bytes
with_encoding (err e) rest = rest
with_encoding (ok payload) rest = payload ∷ rest

-- The encodings, in order, of the messages that can be encoded.
abbrev pub encoded : Json → List Message → List Bytes
encoded json [] = []
encoded json (m ∷ ms) = with_encoding (json.marshal (stored m)) (encoded json ms)

-- A connection is sent each of a list of texts in order, whatever errors that returns.
abbrev pub delivered : {S : Type 0} → Connections S → ℕ → List Bytes → S → S
delivered conns c [] s = s
delivered conns c (payload ∷ ps) s = delivered conns c ps (conns.send c payload s).0

-- The number of the last message is kept for the connection, where there was one.
abbrev pub noted : {S : Type 0} → Connections S → ℕ → ℕ → List Message → S → S
noted conns c k [] s = s
noted conns c k (m ∷ ms) s = conns.set_metadata c "lastId" (int (pos (k + length (m ∷ ms)))) s

module _ {S : Type 0} (conns : Connections S) (lawful : IsLawful conns) (json : Json)
    (now : ℤ) where
  -- A valid state in which a connection has seen that many messages.
  pub record Seen (c k : ℕ) (s : S) : Type 0 where
    pub valid : lawful.IsValid s
    pub last : last_seen (conns.metadata c s) ≡ pos k

  send_json-Seen :
      (c k : ℕ) (v : Reply) (s : S)
      → Seen c k s
      → Seen c k (send_json conns (memory_message_store now) json c v s).0
  unfolding send_json
  send_json-Seen c k reply s v = elim (Result-cases (json.marshal reply)) [
    | inl (payload, good) ↦
        rw (good, send_json)
          (record {
            valid = lawful.send-IsValid c payload s v.valid;
            last = rw (lawful.metadata-send c c payload s v.valid) v.last;
          })
    | inr (e, bad) ↦ rw (bad, send_json) v
  ]

  send_messages-Seen :
      (c k : ℕ) (ms : List Message) (s : S)
      → Seen c k s
      → Seen c k (send_messages conns (memory_message_store now) json c ms s)
  unfolding send_messages
  send_messages-Seen c k [] s v = v
  send_messages-Seen c k (m ∷ ms) s v =
      send_messages-Seen c k ms _ (send_json-Seen c k (stored m) s v)

  remember-Seen :
      (c k : ℕ) (ms : List Message) (s : S)
      → CountsFrom k ms
      → Seen c k s
      → Seen c (k + length ms) (remember conns (memory_message_store now) json c ms s)
  unfolding remember last_seen
  remember-Seen c k [] s counts v = subst (λ i. Seen c i s) (omega arith) v
  remember-Seen c k (m ∷ ms) s counts v =
      let id = int (last_message_id m ms) in
      record {
        valid = lawful.set_metadata-IsValid c "lastId" id s v.valid;
        last =
            rw
              (
                last_seen,
                lawful.metadata-set_metadata c c "lastId" "lastId" id s v.valid,
                (==_iff c c).1 refl,
              )
              (last_message_id_lem k m ms counts);
      }

  send_messages-delivered :
      (c : ℕ) (ms : List Message) (s : S)
      → send_messages conns (memory_message_store now) json c ms s
        ≡ delivered conns c (encoded json ms) s
  unfolding send_messages send_json
  send_messages-delivered c [] s = refl
  send_messages-delivered c (m ∷ ms) s = elim (Result-cases (json.marshal (stored m))) [
    | inl (payload, good) ↦
        rw (good, send_json) (send_messages-delivered c ms (conns.send c payload s).0)
    | inr (e, bad) ↦ rw (bad, send_json) (send_messages-delivered c ms s)
  ]

  remember-noted :
      (c k : ℕ) (ms : List Message) (s : S)
      → CountsFrom k ms
      → remember conns (memory_message_store now) json c ms s ≡ noted conns c k ms s
  unfolding remember
  remember-noted c k [] s counts = refl
  remember-noted c k (m ∷ ms) s counts =
      ap (λ i. conns.set_metadata c "lastId" (int i) s) (last_message_id_lem k m ms counts)

  -- A request for the messages of a room that names no message to start from sends those that
  -- follow the last one that the connection has seen, in order and with no gap, at most 100, each that
  -- can be encoded with one `Send`, whatever that returns, and sets the connection's "lastId" to the
  -- number of the last of them, where there is one; the store is as it was. The connection has then
  -- seen so many more, and the next such request therefore goes on from there.
  pub on_message-fetch_messages :
      (c k : ℕ) (raw : Bytes) (req : Request) (t : MemoryStore) (s : S)
      → Seen c k s
      → IsNumbered t req.room_id
      → json.unmarshal raw ≡ ok req
      → req.kind ≡ "fetch"
      → req.since_id ≡ pos 0
      → (s' : S) × (on_message conns (memory_message_store now) json c raw (t, s) ≡ ((t, s'), none))
        × (s'
            ≡ noted conns c k (take 100 (drop k (messages_of t req.room_id))) (
                delivered conns c (encoded json (take 100 (drop k (messages_of t req.room_id)))) s))
        × Seen c (k + length (take 100 (drop k (messages_of t req.room_id)))) s'
  unfolding on_message dispatch fetch_messages memory_message_store
  on_message-fetch_messages c k raw req t s v numbered read kind start =
      let batch = take 100 (drop k (messages_of t req.room_id)) in
      let store = memory_message_store now in
      let ms = messages_of t req.room_id in
      let from_k : CountsFrom k (drop k ms) =
        subst (λ i. CountsFrom i (drop k ms)) (omega arith)
          (CountsFrom-drop k 0 ms numbered.counts) in
      let counts : CountsFrom k batch = CountsFrom-take 100 k (drop k ms) from_k in
      let fetched : fetch t req.room_id (pos k) (pos 100) ≡ batch =
        fetch_next t req.room_id k (pos 100) numbered in
      let s₁ = send_messages conns store json c batch s in
      (
        remember conns store json c batch s₁,
        rw (on_message, read, dispatch, kind, fetch_messages, start, v.last, fetched) refl,
        remember-noted c k batch s₁ counts
            ∙ ap (noted conns c k batch) (send_messages-delivered c batch s),
        remember-Seen c k batch s₁ counts (send_messages-Seen c k batch s v),
      )

  -- A connection that has seen `k` messages of one room, and asks in the same way for the messages of
  -- a room that has `k` or fewer, is sent none of them, and nothing changes: the number of the last
  -- message is kept for the connection and not for the room.
  on_message_other_room :
      (c k : ℕ) (raw : Bytes) (req : Request) (t : MemoryStore) (s : S)
      → Seen c k s
      → IsNumbered t req.room_id
      → json.unmarshal raw ≡ ok req
      → req.kind ≡ "fetch"
      → req.since_id ≡ pos 0
      → length (messages_of t req.room_id) ≤ k
      → on_message conns (memory_message_store now) json c raw (t, s) ≡ ((t, s), none)
  on_message_other_room c k raw req t s v numbered read kind start short =
      let (s', done, same, _) =
        on_message-fetch_messages c k raw req t s v numbered read kind start in
      let nothing : drop k (messages_of t req.room_id) ≡ [] =
        drop_short k (messages_of t req.room_id) short in
      done ∙ ap (λ x. ((t, x), none)) (same ∙ rw nothing refl)
