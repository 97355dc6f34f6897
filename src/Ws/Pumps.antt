-- ===== src/Ws/Pumps.antt =====
-- ws/server.go, `readPump` and `writePump`: the two goroutines that serve one connection, beside
-- those that call `Send` and `Close` on it. A step is the code between two points at which another
-- goroutine can come in; `Close` is one step, and so is each `WriteMessage`. The runs are therefore
-- those in which no goroutine writes to the socket while another one does: `Close` takes no lock
-- against the write pump, and over such an overlap the library of the socket panics.
pub mod Invariant
pub mod Order
pub mod Closing
pub mod Ending
pub mod StopRank
pub mod Stopping
use go_wst.Prelude.{
  ℕ, suc, String, List, [], ◌∷◌, ◌++◌, Option, none, some, Bool, true, false, if◌then◌else◌,
}
use go_wst.Prelude.Int.{ℤ}
use go_wst.Prelude.Go.{Go, returns, panics, ◌>>=◌}
use go_wst.Protocol.Message.{Bytes}
use go_wst.Ws.Connection.{
  Connection, Frame, text_message, ping_message, close_message, close_normal_closure, Choice,
  new_connection, ready, send, write_message, close,
}

-- The socket: whether the write at a time fails, and what the read at a time brings, where `none` is
-- an error. Both depend on whether the socket has been closed at this end.
pub record Socket : Type 0 where
  pub write_fails : Bool → ℕ → Bool
  pub read : Bool → ℕ → Option Bytes

pub data ReadPhase : Type 0 where
  reading : ReadPhase
  read_returns : ReadPhase
  read_ended : ReadPhase

-- `writing frame last`: the frame that `WriteMessage` is called with, and whether the loop returns
-- after it in any case.
pub data WritePhase : Type 0 where
  selecting : WritePhase
  writing : Frame → Bool → WritePhase
  write_returns : WritePhase
  write_ended : WritePhase

-- The state that the goroutines share and the places that the pumps have reached. `received` is what
-- `OnMessage` was called with, `disconnects` how often `OnDisconnect` was called. Two fields are no
-- state of the code and record its past: `accepted` holds the messages for which `Send` returned no
-- error, `dropped` those that a failed write lost.
pub record Session : Type 0 where
  pub conn : Connection
  pub server_done : Bool
  pub reader : ReadPhase
  pub writer : WritePhase
  pub received : List Bytes
  pub disconnects : ℕ
  pub accepted : List Bytes
  pub dropped : List Bytes

unfoldable pub new_session : String → ℤ → Session
unfolding new_connection
new_session id write_timeout = record {
  conn = new_connection id write_timeout;
  server_done = false;
  reader = reading;
  writer = selecting;
  received = [];
  disconnects = 0;
  accepted = [];
  dropped = [];
}

-- The cases of the `select` of the write pump. The send channel is never closed, so its case always
-- brings a message.
pub data Case : Type 0 where
  server_stops connection_closed message_waits ticker_fires : Case

-- A message is taken out of the channel at once, and written in a later step.
unfoldable pub take_message : List Bytes → Session → Session
take_message [] s = s
take_message (msg ∷ rest) s = record s {
  conn = record s.conn { send_buffer = rest };
  writer = writing (text_message msg) false;
}

unfoldable pub stop_frame : Session → Session
stop_frame s = record s { writer = writing (close_message close_normal_closure "") true }

-- The `select` runs the case that is wished for if it is ready, and otherwise one that is; the
-- ticker is ready from time to time, so a wish for it is granted.
unfoldable pub select_case : Case → Session → Session
unfolding take_message stop_frame
select_case server_stops s =
    if s.server_done
    then stop_frame s
    else if s.conn.done
    then record s { writer = write_returns }
    else take_message s.conn.send_buffer s
select_case connection_closed s =
    if s.conn.done
    then record s { writer = write_returns }
    else if s.server_done
    then stop_frame s
    else take_message s.conn.send_buffer s
select_case message_waits s = elim s.conn.send_buffer [
  | msg ∷ rest ↦ take_message (msg ∷ rest) s
  | [] ↦
      if s.conn.done
      then record s { writer = write_returns }
      else if s.server_done
      then stop_frame s
      else s
]
select_case ticker_fires s = record s { writer = writing ping_message false }

-- The message of a frame, if it is one.
abbrev pub text_of : Frame → List Bytes
text_of (text_message msg) = msg ∷ []
text_of _ = []

-- After a call of `WriteMessage`, with its error.
unfoldable pub after_write : Frame → Bool → Session → Connection × Option String → Session
after_write frame last s (c, some e) = record s {
  conn = c;
  writer = write_returns;
  dropped = s.dropped ++ text_of frame;
}
after_write frame last s (c, none) = record s {
  conn = c;
  writer = if last then write_returns else selecting;
}

-- After a call of `ReadMessage`.
unfoldable pub read_answer : Option Bytes → Session → Session
read_answer none s = record s { disconnects = suc s.disconnects; reader = read_returns }
read_answer (some msg) s = record s { received = s.received ++ msg ∷ [] }

-- What another goroutine does, or a step of one of the pumps, at a time.
pub data Event : Type 0 where
  sends : Bool → Choice → Bytes → Event
  closes : ℕ → Event
  stops : Event
  reads : ℕ → Event
  writes : ℕ → Case → Event

-- After a `Send`, with its error.
unfoldable pub after_send : Bytes → Session → Connection × Option String → Session
after_send msg s (c, some e) = record s { conn = c }
after_send msg s (c, none) = record s { conn = c; accepted = s.accepted ++ msg ∷ [] }

module _ (socket : Socket) where
  -- `conn.Close()`, where the close frame is written before the socket is closed.
  unfoldable pub close_session : ℕ → Session → Go Session
  unfolding close
  close_session now s = do
    (c, _) ← close (socket.write_fails s.conn.done now) none s.conn
    returns (record s { conn = c })

  -- A step of `readPump`, at the phase that it has reached.
  unfoldable pub read_pump : ℕ → ReadPhase → Session → Go Session
  unfolding read_answer close_session
  read_pump now reading s = returns (read_answer (socket.read s.conn.done now) s)
  read_pump now read_returns s = close_session now (record s { reader = read_ended })
  read_pump now read_ended s = returns s

  -- A step of `writePump`, at the phase that it has reached.
  unfoldable pub write_pump : ℕ → Case → WritePhase → Session → Go Session
  unfolding select_case after_write close_session write_message
  write_pump now wish selecting s = returns (select_case wish s)
  write_pump now wish (writing frame last) s =
      returns
        (after_write frame last s (write_message (socket.write_fails s.conn.done now) frame s.conn))
  write_pump now wish write_returns s = close_session now (record s { writer = write_ended })
  write_pump now wish write_ended s = returns s

  -- A `Send` whose case is not ready waits.
  unfoldable pub step : Event → Session → Go Session
  unfolding after_send send ready close_session read_pump write_pump
  step (sends cancelled choice msg) s =
      if ready cancelled s.conn choice
      then returns (after_send msg s (send choice msg s.conn))
      else returns s
  step (closes now) s = close_session now s
  step stops s = returns (record s { server_done = true })
  step (reads now) s = read_pump now s.reader s
  step (writes now wish) s = write_pump now wish s.writer s

  unfoldable pub run : List Event → Session → Go Session
  run [] s = returns s
  run (e ∷ events) s = do s' ← step e s; run events s'
