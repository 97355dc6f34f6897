-- ===== src/Wt/Connection.antt =====
-- wt/connection.go: the wrapper of a WebTransport session. Streams are numbers; the transport's
-- answer to `CloseWithError` is an argument. Closing a closed channel panics.
pub mod Laws
pub mod Interface
use go_wst.Prelude.{
  ℕ, String, str_eq, List, [], ◌∷◌, ◌++◌, Option, none, some, Bool, true, false, if◌then◌else◌, ltb,
  length,
}
use go_wst.Prelude.Int.{ℤ}
use go_wst.Prelude.Dict.{Dict, insert}
use go_wst.Prelude.Go.{Go, returns, panics, close_channel}
use go_wst.Protocol.Message.{Bytes}
use go_wst.Prelude.Result.{Result, ok, err}
use go_wst.Protocol.Value.{Any}
use go_wst.Protocol.Metadata.{copy_entries}
use go_wst.Protocol.Auth.{protocol_web_transport}

-- `ConnectionError`; `other_error` is an error of another type.
pub data Error : Type 0 where
  connection_error : String → Error
  other_error : String → Error

-- `e.Is(target)`
unfoldable pub is : String → Error → Bool
is msg (connection_error target) = str_eq msg target
is msg (other_error target) = false

pub record Connection : Type 0 where
  pub id : String
  pub protocol : String
  pub user_id_value : Option String
  pub metadata_map : Dict Any
  pub send_buffer : List Bytes
  pub done : Bool
  pub close_err : Option String
  pub write_timeout : ℤ
  pub once : Bool
  pub response_stream : Option ℕ
  pub stream_ready : Bool

unfoldable pub new_connection : String → ℤ → Connection
new_connection id write_timeout = record {
  id = id;
  protocol = protocol_web_transport;
  user_id_value = none;
  metadata_map = [];
  send_buffer = [];
  done = false;
  close_err = none;
  write_timeout = write_timeout;
  once = false;
  response_stream = none;
  stream_ready = false;
}

unfoldable pub user_id : Connection → String
user_id c = elim c.user_id_value [ none ↦ "" | some u ↦ u ]

unfoldable pub set_user_id : String → Connection → Connection
set_user_id u c = record c { user_id_value = some u }

unfoldable pub set_metadata : String → Any → Connection → Connection
set_metadata key v c = record c { metadata_map = insert key v c.metadata_map }

unfoldable pub metadata : Connection → Dict Any
unfolding copy_entries
metadata c = copy_entries [] c.metadata_map

-- The case of the `select` of `Send` that runs.
pub data Choice : Type 0 where
  context_done connection_done buffered : Choice

unfoldable pub ready : Bool → Connection → Choice → Bool
ready cancelled c context_done = cancelled
ready cancelled c connection_done = c.done
ready cancelled c buffered = ltb (length c.send_buffer) 256

unfoldable pub send : Choice → Bytes → Connection → Connection × Option String
send context_done msg c = (c, some "context canceled")
send connection_done msg c = (c, some "connection closed")
send buffered msg c = (record c { send_buffer = c.send_buffer ++ msg ∷ [] }, none)

-- `marshal` is `json.Marshal`.
unfoldable pub send_json :
    (Any → Result String Bytes) → Choice → Any → Connection → Connection × Option String
unfolding send
send_json marshal choice v c = elim (marshal v) [
  | err e ↦ (c, some e)
  | ok bytes ↦ send choice bytes c
]

-- The function that `sync.Once` runs.
close_once : Option String → Connection → Go Bool → Go (Connection × Option String)
close_once session_error c panics = panics
close_once session_error c (returns d) = returns (record c { once = true; done = d }, session_error)

unfoldable pub close : Option String → Connection → Go (Connection × Option String)
unfolding close_channel close_once
close session_error c =
    if c.once then returns (c, none) else close_once session_error c (close_channel c.done)

unfoldable pub close_with_error :
    Option String → String → Connection → Go (Connection × Option String)
unfolding close
close_with_error session_error e c = close session_error (record c { close_err = some e })

stream_set : ℕ → Connection → Go Bool → Go Connection
stream_set stream c panics = panics
stream_set stream c (returns r) =
    returns (record c { response_stream = some stream; stream_ready = r })

-- Only the first stream is kept, and only it closes `streamReady`.
unfoldable pub set_response_stream : ℕ → Connection → Go Connection
unfolding close_channel stream_set
set_response_stream stream c = elim c.response_stream [
  | none ↦ stream_set stream c (close_channel c.stream_ready)
  | some kept ↦ returns c
]
