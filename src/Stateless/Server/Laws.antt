-- ===== src/Stateless/Server/Laws.antt =====
-- stateless/server.go over the store in memory of stateless/store.go.
use go_wst.Prelude.{
  ℕ, ◌+◌, ◌≡◌, ◌<◌, refl, ap, ◌∙◌, String, [], ◌∷◌, ◌++◌, false, if◌then◌else◌, arith, take, drop,
  length, Bool-cases, inl, inr,
}
use go_wst.Prelude.Int.{ℤ, pos, negsuc, leb_ℤ, pos_part, inc64-pos, inc64, max_int64}
use go_wst.Prelude.Result.{ok}
use go_wst.Protocol.Message.{FetchRequest, SendRequest}
use go_wst.Stateless.Store.{MemoryStore, memory_message_store, messages_of}
use go_wst.Stateless.Store.Fetch.{at_most}
use go_wst.Stateless.Store.Numbering.{IsNumbered, messages_of-store}
use go_wst.Stateless.Store.Polling.{fetch_next}
use go_wst.Stateless.Server.{Config, fetch, send}

-- How many messages the server returns at most.
unfoldable batch : Config → FetchRequest → ℕ
batch config req = if leb_ℤ req.limit (pos 0) then at_most config.batch_size else pos_part req.limit

at_most_pos : (limit : ℤ) → leb_ℤ limit (pos 0) ≡ false → at_most limit ≡ pos_part limit
at_most_pos (pos n) h = ground arith
at_most_pos (negsuc n) h = absurd (ground arith)

-- Over a memory store whose messages for the user are numbered a fetch never fails; it returns what
-- follows the client's last message, bounded by the request's limit or, where that is not positive,
-- by the batch size. The topic of the request plays no part.
fetch_lem :
    (now : ℤ) (config : Config) (s : MemoryStore) (user topic : String) (k : ℕ) (limit : ℤ)
    → IsNumbered s user
    → let req : FetchRequest = record {
      user_id = user;
      since_id = pos k;
      limit = limit;
      topic = topic;
    } in
      fetch (memory_message_store now) config s req
      ≡ ok (take (batch config req) (drop k (messages_of s user)))
unfolding fetch batch memory_message_store
fetch_lem now config s user topic k limit num = elim (Bool-cases (leb_ℤ limit (pos 0))) [
  | inl e ↦ rw e (ap ok (fetch_next s user k config.batch_size num))
  | inr e ↦ rw e (
      ap ok (
        fetch_next s user k limit num
        ∙ ap (λ n. take n (drop k (messages_of s user))) (at_most_pos limit e)))
]

-- Over a memory store, where the user's messages are numbered and below the largest `int64`, what
-- is sent is appended for its user, under the next number and at the time of the clock.
send_lem :
    (now : ℤ) (config : Config) (s : MemoryStore) (req : SendRequest)
    → IsNumbered s req.user_id
    → length (messages_of s req.user_id) < max_int64
    → (s' : MemoryStore) × (send (memory_message_store now) config s req ≡ ok s')
      × (messages_of s' req.user_id
          ≡ messages_of s req.user_id
            ++ record {
              id = pos (length (messages_of s req.user_id) + 1);
              timestamp = now;
              kind = "message";
              topic = req.topic;
              payload = req.payload;
            }
              ∷ [])
unfolding send memory_message_store
send_lem now config s req num room = (
  _,
  refl,
  messages_of-store now s req.user_id _
      ∙ ap
          (λ i.
            messages_of s req.user_id
            ++ record {
              id = i;
              timestamp = now;
              kind = "message";
              topic = req.topic;
              payload = req.payload;
            }
              ∷ [])
          (ap inc64 num.last ∙ inc64-pos _ room),
)
