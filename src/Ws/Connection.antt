-- ===== src/Ws/Connection.antt =====
-- ws/connection.go: the wrapper of a WebSocket connection. A method returns the new connection and
-- its result; `wire` is what has been written to the peer, oldest first, and the transport's own
-- answers (`write_fails`, `close_error`) are arguments. Closing a closed channel panics.
pub mod Laws
pub mod Interface
use Prim.Native.Nat.{min}
use go_wst.Prelude.{
  ℕ, ◌+◌, String, List, [], ◌∷◌, ◌++◌, Option, none, some, Bool, true, false, if◌then◌else◌, ltb,
  length,
}
use go_wst.Prelude.Int.{ℤ}
use go_wst.Prelude.Dict.{Dict, insert}
use go_wst.Prelude.Go.{Go, returns, panics}
use go_wst.Prelude.Result.{Result, ok, err}
use go_wst.Protocol.Message.{Bytes}
use go_wst.Protocol.Value.{Any}
use go_wst.Protocol.Metadata.{copy_entries}
use go_wst.Protocol.Auth.{protocol_web_socket}

pub data Frame : Type 0 where
  text_message : Bytes → Frame
  ping_message : Frame
  close_message : ℕ → String → Frame

pub record Connection : Type 0 where
  pub id : String
  pub protocol : String
  pub user_id_value : Option String
  pub metadata_map : Dict Any
  pub send_buffer : List Bytes
  pub done : Bool
  pub close_err : Option String
  pub write_timeout : ℤ
  pub once : Bool
  pub wire : List Frame

abbrev pub buffer_size : ℕ
buffer_size = 256

abbrev pub close_normal_closure : ℕ
close_normal_closure = 1000

unfoldable pub new_connection : String → ℤ → Connection
new_connection id write_timeout = record {
  id = id;
  protocol = protocol_web_socket;
  user_id_value = none;
  metadata_map = [];
  send_buffer = [];
  done = false;
  close_err = none;
  write_timeout = write_timeout;
  once = false;
  wire = [];
}

-- `UserID()`: the empty text before the first `SetUserID`.
unfoldable pub user_id : Connection → String
user_id c = elim c.user_id_value [ none ↦ "" | some u ↦ u ]

unfoldable pub set_user_id : String → Connection → Connection
set_user_id u c = record c { user_id_value = some u }

unfoldable pub metadata : Connection → Dict Any
unfolding copy_entries
metadata c = copy_entries [] c.metadata_map

unfoldable pub set_metadata : String → Any → Connection → Connection
set_metadata key v c = record c { metadata_map = insert key v c.metadata_map }

-- Which case of the `select` of `Send` runs: any of those that are ready.
pub data Choice : Type 0 where
  context_done connection_done buffered : Choice

unfoldable pub ready : Bool → Connection → Choice → Bool
ready cancelled c context_done = cancelled
ready cancelled c connection_done = c.done
ready cancelled c buffered = ltb (length c.send_buffer) buffer_size

unfoldable pub send : Choice → Bytes → Connection → Connection × Option String
send context_done msg c = (c, some "context canceled")
send connection_done msg c = (c, some "websocket: close sent")
send buffered msg c = (record c { send_buffer = c.send_buffer ++ msg ∷ [] }, none)

-- `marshal` is `json.Marshal`.
unfoldable pub send_json :
    (Any → Result String Bytes) → Choice → Any → Connection → Connection × Option String
unfolding send
send_json marshal choice v c = elim (marshal v) [
  | err e ↦ (c, some e)
  | ok bytes ↦ send choice bytes c
]

-- `close(c.done)`
close_done : Connection → Go Connection
close_done c = if c.done then panics else returns (record c { done = true })

-- `conn.WriteMessage`: a write that fails leaves nothing on the wire.
unfoldable pub write_message : Bool → Frame → Connection → Connection × Option String
write_message write_fails frame c =
    if write_fails
    then (c, some "write error")
    else (record c { wire = c.wire ++ frame ∷ [] }, none)

-- `sync.Once` runs its function in the first call only. It is one step: that the write pump may be
-- writing at the same time, over which the library of the socket panics, is left out.
unfoldable pub close : Bool → Option String → Connection → Go (Connection × Option String)
unfolding close_done write_message
close write_fails close_error c =
    if c.once then returns (c, none) else elim (close_done (record c { once = true })) [
      | panics ↦ panics
      | returns c' ↦
          returns
            ((write_message write_fails (close_message close_normal_closure "") c').0, close_error)
    ]

unfoldable pub close_with_error :
    Bool → Option String → String → Connection → Go (Connection × Option String)
unfolding close
close_with_error write_fails close_error e c =
    close write_fails close_error (record c { close_err = some e })
