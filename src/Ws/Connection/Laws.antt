-- ===== src/Ws/Connection/Laws.antt =====
-- ws/connection.go: what holds of a connection whatever calls are made on it.
use go_wst.Prelude.{
  ◌≤◌, ◌≡◌, inl, inr, refl, String, str_eq, List, [], ◌∷◌, Option, none, some, Bool, true, false,
  if◌then◌else◌, ltb, length, length-append, arith, Bool-cases,
}
use go_wst.Prelude.Int.{ℤ}
use go_wst.Prelude.Dict.{lookup, Distinct, insert-Distinct}
use go_wst.Prelude.Go.{Go, returns, ◌>>=◌}
use go_wst.Protocol.Message.{Bytes}
use go_wst.Protocol.Value.{Any}
use go_wst.Protocol.Metadata.{copy_entries-insert}
use go_wst.Ws.Connection.{
  Connection, Choice, context_done, connection_done, buffered, buffer_size, new_connection, user_id,
  set_user_id, metadata, set_metadata, ready, send, close, close_with_error, close_message,
  close_normal_closure, write_message,
}

-- The done channel is closed by the first `Close` only, and the buffer keeps its bound.
pub record IsConnection (c : Connection) : Type 0 where
  pub closed_once : c.done ≡ c.once
  pub bounded : length c.send_buffer ≤ buffer_size
  pub keys : Distinct c.metadata_map

-- The calls that change a connection.
pub data Call : Type 0 where
  sets_user_id : String → Call
  sets_metadata : String → Any → Call
  sends : Bool → Choice → Bytes → Call
  closes : Bool → Option String → Call
  closes_with_error : Bool → Option String → String → Call

-- A `Send` takes a case that is ready; one that is not leaves the call waiting.
unfoldable pub apply : Call → Connection → Go Connection
apply (sets_user_id u) c = returns (set_user_id u c)
apply (sets_metadata k v) c = returns (set_metadata k v c)
apply (sends cancelled choice msg) c =
    if ready cancelled c choice then returns (send choice msg c).0 else returns c
apply (closes write_fails close_error) c = do (c', _) ← close write_fails close_error c; returns c'
apply (closes_with_error write_fails close_error e) c = do
  (c', _) ← close_with_error write_fails close_error e c
  returns c'

unfoldable pub run : List Call → Connection → Go Connection
run [] c = returns c
run (call ∷ calls) c = do c' ← apply call c; run calls c'

-- The connection after `Close`.
unfoldable pub closed : Bool → Connection → Connection
unfolding write_message
closed write_fails c =
    if c.once
    then c
    else (write_message write_fails (close_message close_normal_closure "")
        (record c { once = true; done = true })).0

-- On a valid connection `Close` never panics; the transport's error is returned by the first call.
pub close_lem :
    (write_fails : Bool) (close_error : Option String) (c : Connection)
    → c.done ≡ c.once
    → close write_fails close_error c
      ≡ returns (closed write_fails c, if c.once then none else close_error)
unfolding close closed
close_lem write_fails close_error c e = ground arith

closed-IsConnection :
    (write_fails : Bool) (c : Connection) → IsConnection c → IsConnection (closed write_fails c)
unfolding closed
closed-IsConnection true c v = record {
  closed_once = ground arith;
  bounded = ground arith;
  keys = elim (Bool-cases c.once) [ inl e ↦ rw e v.keys | inr e ↦ rw e v.keys ];
}
closed-IsConnection false c v = record {
  closed_once = ground arith;
  bounded = ground arith;
  keys = elim (Bool-cases c.once) [ inl e ↦ rw e v.keys | inr e ↦ rw e v.keys ];
}

apply-IsConnection :
    (call : Call) (c : Connection)
    → IsConnection c
    → (c' : Connection) × (apply call c ≡ returns c') × IsConnection c'
unfolding apply set_user_id set_metadata send ready close close_with_error
apply-IsConnection (sets_user_id u) c v =
    (_, refl, record { closed_once = v.closed_once; bounded = v.bounded; keys = v.keys })
apply-IsConnection (sets_metadata k x) c v = (
  _,
  refl,
  record {
    closed_once = v.closed_once;
    bounded = v.bounded;
    keys = insert-Distinct k x c.metadata_map v.keys;
  },
)
apply-IsConnection (sends cancelled context_done msg) c v = (c, ground arith, v)
apply-IsConnection (sends cancelled connection_done msg) c v = (c, ground arith, v)
apply-IsConnection (sends cancelled buffered msg) c v =
    elim (Bool-cases (ltb (length c.send_buffer) buffer_size)) [
      | inl room ↦ (
        (send buffered msg c).0,
        rw room,
        record {
          closed_once = v.closed_once;
          bounded = ground (arith, length-append c.send_buffer (msg ∷ []));
          keys = v.keys;
        },
      )
      | inr full ↦ (c, rw full, v)
    ]
apply-IsConnection (closes write_fails close_error) c v = (
  closed write_fails c,
  ground (arith, close_lem write_fails close_error c v.closed_once),
  closed-IsConnection write_fails c v,
)
apply-IsConnection (closes_with_error write_fails close_error e) c v =
    let c' : Connection = record c { close_err = some e } in
    let v' : IsConnection c' = record {
      closed_once = v.closed_once;
      bounded = v.bounded;
      keys = v.keys;
    } in
    (
      closed write_fails c',
      ground (arith, close_lem write_fails close_error c' v.closed_once),
      closed-IsConnection write_fails c' v',
    )

run-IsConnection :
    (calls : List Call) (c : Connection)
    → IsConnection c
    → (c' : Connection) × (run calls c ≡ returns c') × IsConnection c'
unfolding run
run-IsConnection [] c v = (c, refl, v)
run-IsConnection (call ∷ calls) c v =
    let (c', done, v') = apply-IsConnection call c v in
    let (c'', rest, v'') = run-IsConnection calls c' v' in (c'', rw done rest, v'')

pub new_connection-IsConnection :
    (id : String) (timeout : ℤ) → IsConnection (new_connection id timeout)
unfolding new_connection
new_connection-IsConnection id timeout = record {
  closed_once = refl;
  bounded = omega arith;
  keys = tt;
}

-- Whatever calls are made on a new connection, in whatever order, no channel is closed twice, so
-- none panics, and the send buffer never holds more than 256 messages.
run-new_connection :
    (id : String) (timeout : ℤ) (calls : List Call)
    → (c : Connection) × (run calls (new_connection id timeout) ≡ returns c)
      × (c.done ≡ c.once)
      × (length c.send_buffer ≤ buffer_size)
run-new_connection id timeout calls =
    let (c, done, v) =
      run-IsConnection calls (new_connection id timeout) (new_connection-IsConnection id timeout) in
    (c, done, v.closed_once, v.bounded)

-- On a valid connection `Close` never panics and is idempotent: a second call changes nothing and
-- returns no error, and the first, on an open connection, returns the transport's.
close-close :
    (f g : Bool) (e e' : Option String) (c : Connection)
    → IsConnection c
    → (c' : Connection) × (close f e c ≡ returns (c', if c.once then none else e))
      × (close g e' c' ≡ returns (c', none))
      × (c'.done ≡ true)
unfolding closed close
close-close f g e e' c v =
    let v' = closed-IsConnection f c v in
    (closed f c, close_lem f e c v.closed_once, ground arith, ground arith)

-- The copy that `Metadata` returns holds what was set last under each key.
pub metadata-set_metadata :
    (k j : String) (v : Any) (c : Connection)
    → Distinct c.metadata_map
    → lookup j (metadata (set_metadata k v c))
      ≡ (if str_eq k j then some v else lookup j (metadata c))
unfolding metadata set_metadata
metadata-set_metadata k j v c h = copy_entries-insert k j v c.metadata_map h

-- `Close` leaves the ID and the user of a connection as they are.
pub close-id :
    (f : Bool) (e : Option String) (c : Connection) (r : Connection × Option String)
    → close f e c ≡ returns r
    → (r.0.id ≡ c.id) × (user_id r.0 ≡ user_id c)
unfolding close user_id
close-id f e c r h = ground arith
