-- ===== src/Tests/WsPumps.antt =====
-- ws/server.go, the pumps: the theorems at concrete inputs.
use go_wst.Prelude.{
  ◌≡◌, ◌⊎◌, refl, inl, List, [], ◌∷◌, ◌++◌, none, some, true, false, length, arith,
}
use go_wst.Prelude.Int.{pos}
use go_wst.Prelude.Go.{returns}
use go_wst.Ws.Connection.{new_connection, connection_done, buffered}
use go_wst.Ws.Pumps.{
  Socket, Session, new_session, read_ended, write_ended, message_waits, server_stops,
  connection_closed, Event, sends, closes, reads, writes, run,
}
use go_wst.Ws.Pumps.Invariant.{IsSession, texts, in_flight, is_over, notices}
use go_wst.Ws.Pumps.Order.{run-new_session}
use go_wst.Ws.Pumps.Stopping.{run-stopped}
use go_wst.Ws.Pumps.Ending.{run-ended}

-- A socket that brings one message at each read while it is open, and works until then.
abbrev socket : Socket
socket = record {
  write_fails = λ closed now. closed;
  read = λ closed now. elim closed [ true ↦ none | false ↦ some (1 ∷ []) ];
}

-- Two messages are sent, and the connection is closed while the second is about to be written.
abbrev events : List Event
events =
    sends false buffered (7 ∷ [])
    ∷ reads 1
    ∷ writes 2 message_waits
    ∷ sends false buffered (8 ∷ [])
    ∷ writes 3 message_waits
    ∷ writes 4 message_waits
    ∷ closes 5
    ∷ writes 6 message_waits
    ∷ reads 7
    ∷ reads 8
    ∷ []

run-new_session_example :
    (s : Session) × (run socket events (new_session "a" (pos 10)) ≡ returns s)
    × (s.accepted ≡ texts s.conn.wire ++ (s.dropped ++ (in_flight s.writer ++ s.conn.send_buffer)))
    × ((s.dropped ≡ []) ⊎ ((is_over s.writer ≡ true) × (length s.dropped ≡ 1)))
    × (s.disconnects ≡ notices s.reader)
run-new_session_example = run-new_session socket "a" (pos 10) events

-- A connection that was closed with both pumps in their loops.
abbrev closed_session : Session
unfolding new_session new_connection
closed_session =
    let s = new_session "a" (pos 10) in
    record s { conn = record s.conn { done = true; once = true } }

abbrev ending : List Event
ending =
    writes 1 connection_closed
    ∷ reads 2
    ∷ writes 3 connection_closed
    ∷ sends true connection_done (7 ∷ [])
    ∷ reads 4
    ∷ writes 5 connection_closed
    ∷ []

closed_session-IsSession : IsSession closed_session
unfolding new_session
closed_session-IsSession = record { once = refl; order = refl; kept = inl refl; noticed = refl }

run-ended_example :
    (s' : Session) × (run socket ending closed_session ≡ returns s')
    × (s'.reader ≡ read_ended)
    × (s'.writer ≡ write_ended)
    × (s'.conn.done ≡ true)
unfolding new_session new_connection
run-ended_example =
    run-ended socket (λ now. refl) (λ now. refl) ending closed_session closed_session-IsSession refl
      (omega arith) (omega arith)

-- A server that stops while a message waits in the channel.
abbrev stopping_session : Session
unfolding new_session new_connection
stopping_session =
    let s = new_session "a" (pos 10) in
    record s {
      server_done = true;
      conn = record s.conn { send_buffer = (7 ∷ []) ∷ [] };
      accepted = (7 ∷ []) ∷ [];
    }

abbrev stop_turns : List Event
stop_turns =
    writes 1 server_stops
    ∷ sends false buffered (8 ∷ [])
    ∷ writes 2 server_stops
    ∷ reads 3
    ∷ writes 4 server_stops
    ∷ writes 5 server_stops
    ∷ []

stopping_session-IsSession : IsSession stopping_session
unfolding new_session
stopping_session-IsSession = record { once = refl; order = refl; kept = inl refl; noticed = refl }

run-stopped_example :
    (s' : Session) × (run socket stop_turns stopping_session ≡ returns s')
    × (s'.writer ≡ write_ended)
    × (s'.conn.done ≡ true)
unfolding new_session new_connection
run-stopped_example =
    run-stopped socket stop_turns stopping_session stopping_session-IsSession refl refl
      (refl, (refl, (refl, (refl, tt)))) (omega arith)
