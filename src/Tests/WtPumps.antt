-- ===== src/Tests/WtPumps.antt =====
-- wt/server.go, the goroutines of a connection: the theorem at a concrete input.
use go_wst.Prelude.{◌≡◌, ◌⊎◌, List, [], ◌∷◌, ◌++◌, none, some, true, false, length, All}
use go_wst.Prelude.Int.{pos}
use go_wst.Prelude.Go.{returns}
use go_wst.Wt.Connection.{buffered}
use go_wst.Wt.Pumps.{
  Streams, Session, new_session, message_waits, Event, sends, closes, opens, reads, writes, run,
}
use go_wst.Wt.Pumps.Invariant.{sent, in_hand, is_over}
use go_wst.Wt.Pumps.Order.{run-new_session-streams}

-- Two streams that bring one message at each read while the session is open.
abbrev streams : Streams
streams = record {
  write_fails = λ closed now. closed;
  read = λ closed j now. elim closed [ true ↦ none | false ↦ some (j ∷ []) ];
}

-- The peer opens two streams, and the message is written to the one that was offered first.
abbrev events : List Event
events =
    opens 4
    ∷ opens 8
    ∷ sends false buffered (7 ∷ [])
    ∷ reads 8 1
    ∷ reads 4 2
    ∷ writes 3 message_waits
    ∷ writes 4 message_waits
    ∷ writes 5 message_waits
    ∷ sends false buffered (9 ∷ [])
    ∷ closes none
    ∷ []

run-new_session-streams_example :
    (s : Session) × (run streams events (new_session "a" (pos 10)) ≡ returns s)
    × (s.accepted ≡ sent s.wire ++ (s.dropped ++ (in_hand s.writer ++ s.conn.send_buffer)))
    × ((s.dropped ≡ []) ⊎ ((is_over s.writer ≡ true) × (length s.dropped ≡ 1)))
    × All (λ e. s.conn.response_stream ≡ some e.0) s.wire
run-new_session-streams_example = run-new_session-streams streams "a" (pos 10) events
