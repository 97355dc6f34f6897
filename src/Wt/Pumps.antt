-- ===== src/Wt/Pumps.antt =====
-- wt/server.go, `handleStream` and `writePump`: the goroutines of one connection, one for each
-- stream that the peer opens and one that writes. A step is the code between two points at which
-- another goroutine can come in; `Close` is one step.
pub mod Invariant
pub mod Order
use go_wst.Prelude.{
  ℕ, String, List, [], ◌∷◌, ◌++◌, Option, none, some, Bool, true, false, if◌then◌else◌, ◌==◌, ◌||◌,
  ◌&&◌,
}
use go_wst.Prelude.Int.{ℤ}
use go_wst.Prelude.Go.{Go, returns, panics, ◌>>=◌}
use go_wst.Protocol.Message.{Bytes}
use go_wst.Wt.Connection.{
  Connection, Choice, new_connection, ready, send, close, set_response_stream,
}

-- The streams of the session: whether a write at a time fails, and what a read of a stream at a time
-- brings, where `none` is an error. Both depend on whether the session was closed at this end.
pub record Streams : Type 0 where
  pub write_fails : Bool → ℕ → Bool
  pub read : Bool → ℕ → ℕ → Option Bytes

-- The goroutine of a stream: not there yet, about to offer the stream for responses, at the `select`
-- of its loop, in `Read`, or over.
pub data StreamPhase : Type 0 where
  unopened : StreamPhase
  accepted_stream : StreamPhase
  checking : StreamPhase
  reading : StreamPhase
  stream_ended : StreamPhase

-- The write pump: before the first stream is offered, at the `select` of its loop, with a message in
-- hand, or over.
pub data WritePhase : Type 0 where
  unready : WritePhase
  selecting : WritePhase
  writing : Bytes → WritePhase
  write_ended : WritePhase

-- What the goroutines share and the places that they have reached. `wire` is what has been written,
-- with the stream, and `received` what `OnMessage` was called with. Two fields are no state of the
-- code and record its past: `accepted` holds the messages for which `Send` returned no error,
-- `dropped` those that a failed write lost.
pub record Session : Type 0 where
  pub conn : Connection
  pub server_done : Bool
  pub readers : ℕ → StreamPhase
  pub writer : WritePhase
  pub received : List Bytes
  pub wire : List (ℕ × Bytes)
  pub accepted : List Bytes
  pub dropped : List Bytes

unfoldable pub new_session : String → ℤ → Session
unfolding new_connection
new_session id write_timeout = record {
  conn = new_connection id write_timeout;
  server_done = false;
  readers = λ j. unopened;
  writer = unready;
  received = [];
  wire = [];
  accepted = [];
  dropped = [];
}

-- The cases of the `select` in the loop of the write pump.
pub data Case : Type 0 where
  server_stops connection_closed message_waits : Case

unfoldable pub to_reader : ℕ → StreamPhase → Session → Session
to_reader j p s = record s { readers = λ k. if k == j then p else s.readers k }

-- A message is taken out of the channel at once, and written in a later step.
unfoldable pub take_message : List Bytes → Session → Session
take_message [] s = s
take_message (msg ∷ rest) s = record s {
  conn = record s.conn { send_buffer = rest };
  writer = writing msg;
}

-- Each `select` runs the case that is wished for if it is ready, and otherwise one that is; where
-- none is, it waits. The two cases that end the pump do the same.
unfoldable pub select_case : Case → Session → Session
unfolding take_message
select_case message_waits s = elim s.conn.send_buffer [
  | msg ∷ rest ↦ take_message (msg ∷ rest) s
  | [] ↦ if s.server_done || s.conn.done then record s { writer = write_ended } else s
]
select_case _ s =
    if s.server_done || s.conn.done
    then record s { writer = write_ended }
    else take_message s.conn.send_buffer s

-- The first `select`, before the loop; `ends` is the wish for one of the cases that return.
unfoldable pub select_ready : Bool → Session → Session
select_ready ends s =
    if s.conn.stream_ready
    then if ends && (s.server_done || s.conn.done)
      then record s { writer = write_ended }
      else record s { writer = selecting }
    else if s.server_done || s.conn.done
    then record s { writer = write_ended }
    else s

-- `(*stream).Write(msg)`, which either fails or writes the whole message; with no response stream
-- the message in hand is lost.
unfoldable pub write_message : Bool → Bytes → Option ℕ → Session → Session
write_message fails msg none s = record s { writer = write_ended; dropped = s.dropped ++ msg ∷ [] }
write_message fails msg (some stream) s =
    if fails
    then record s { writer = write_ended; dropped = s.dropped ++ msg ∷ [] }
    else record s { writer = selecting; wire = s.wire ++ (stream, msg) ∷ [] }

-- After `Read` in the goroutine of a stream.
unfoldable pub read_answer : ℕ → Option Bytes → Session → Session
unfolding to_reader
read_answer j none s = to_reader j stream_ended s
read_answer j (some msg) s = record (to_reader j checking s) { received = s.received ++ msg ∷ [] }

pub data Event : Type 0 where
  sends : Bool → Choice → Bytes → Event
  closes : Option String → Event
  stops : Event
  opens : ℕ → Event
  reads : ℕ → ℕ → Event
  writes : ℕ → Case → Event

-- After a `Send`, with its error.
unfoldable pub after_send : Bytes → Session → Connection × Option String → Session
after_send msg s (c, some e) = record s { conn = c }
after_send msg s (c, none) = record s { conn = c; accepted = s.accepted ++ msg ∷ [] }

-- Whether a wish in the loop, at the first `select`, asks to return.
abbrev pub wants_end : Case → Bool
wants_end message_waits = false
wants_end _ = true

-- `opens` is the start of the goroutine for a stream that `AcceptStream` returned.
unfoldable pub open_stream : ℕ → StreamPhase → Session → Session
unfolding to_reader
open_stream j unopened s = to_reader j accepted_stream s
open_stream j _ s = s

module _ (streams : Streams) where
  -- A step of `handleStream` on a stream, at the phase that it has reached.
  unfoldable pub handle_stream : ℕ → ℕ → StreamPhase → Session → Go Session
  unfolding to_reader read_answer set_response_stream
  handle_stream now j unopened s = returns s
  handle_stream now j accepted_stream s = do
    c ← set_response_stream j s.conn
    returns (record (to_reader j checking s) { conn = c })
  handle_stream now j checking s =
      returns (to_reader j (if s.server_done || s.conn.done then stream_ended else reading) s)
  handle_stream now j reading s = returns (read_answer j (streams.read s.conn.done j now) s)
  handle_stream now j stream_ended s = returns s

  -- A step of `writePump`, at the phase that it has reached.
  unfoldable pub write_pump : ℕ → Case → WritePhase → Session → Session
  unfolding select_ready select_case write_message
  write_pump now wish unready s = select_ready (wants_end wish) s
  write_pump now wish selecting s = select_case wish s
  write_pump now wish (writing msg) s =
      write_message (streams.write_fails s.conn.done now) msg s.conn.response_stream s
  write_pump now wish write_ended s = s

  -- A `Send` whose case is not ready waits.
  unfoldable pub step : Event → Session → Go Session
  unfolding after_send send ready close handle_stream write_pump open_stream
  step (sends cancelled choice msg) s =
      if ready cancelled s.conn choice
      then returns (after_send msg s (send choice msg s.conn))
      else returns s
  step (closes session_error) s = do
    (c, _) ← close session_error s.conn
    returns (record s { conn = c })
  step stops s = returns (record s { server_done = true })
  step (opens j) s = returns (open_stream j (s.readers j) s)
  step (reads j now) s = handle_stream now j (s.readers j) s
  step (writes now wish) s = returns (write_pump now wish s.writer s)

  unfoldable pub run : List Event → Session → Go Session
  run [] s = returns s
  run (e ∷ events) s = do s' ← step e s; run events s'
