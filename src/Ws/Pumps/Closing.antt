-- ===== src/Ws/Pumps/Closing.antt =====
-- ws/server.go, `readPump` and `writePump`: how far each pump of a closed connection is from its
-- end, and that the steps come closer to it that do not ask the socket.
use go_wst.Prelude.{
  ℕ, ◌+◌, ◌-◌, ◌≤◌, ◌≡◌, refl, List, [], ◌∷◌, Bool, true, false, if◌then◌else◌, arith,
}
use go_wst.Protocol.Message.{Bytes}
use go_wst.Ws.Connection.{Frame, ping_message, close_message, close_normal_closure, write_message}
use go_wst.Ws.Pumps.{
  ReadPhase, reading, read_returns, read_ended, WritePhase, selecting, writing, write_returns,
  write_ended, Session, Case, server_stops, connection_closed, message_waits, ticker_fires,
  take_message, stop_frame, select_case, after_write, Event, reads, writes,
}

-- How many steps a pump of a closed connection is away from its end, at most.
abbrev pub read_rank : ReadPhase → ℕ
read_rank reading = 2
read_rank read_returns = 1
read_rank read_ended = 0

abbrev pub write_rank : WritePhase → ℕ
write_rank selecting = 3
write_rank (writing frame last) = 2
write_rank write_returns = 1
write_rank write_ended = 0

-- The steps of each pump in a schedule.
abbrev pub read_turn : Event → ℕ
read_turn (reads now) = 1
read_turn _ = 0

abbrev pub write_turn : Event → ℕ
write_turn (writes now wish) = 1
write_turn _ = 0

abbrev pub read_turns : List Event → ℕ
read_turns [] = 0
read_turns (e ∷ events) = read_turn e + read_turns events

abbrev pub write_turns : List Event → ℕ
write_turns [] = 0
write_turns (e ∷ events) = write_turn e + write_turns events

-- A state of a closed connection, with each pump that many steps or fewer from its end.
pub record Closing (r w : ℕ) (s : Session) : Type 0 where
  pub done : s.conn.done ≡ true
  pub once : s.conn.once ≡ true
  pub reader_rank : read_rank s.reader ≤ r
  pub writer_rank : write_rank s.writer ≤ w

pub weaken : (r r' w w' : ℕ) (s : Session) → r ≤ r' → w ≤ w' → Closing r w s → Closing r' w' s
weaken r r' w w' s hr hw v = record {
  done = v.done;
  once = v.once;
  reader_rank = omega (arith, v.reader_rank);
  writer_rank = omega (arith, v.writer_rank);
}

pub idle : (r w : ℕ) (s : Session) → Closing r w s → Closing (r - 0) (w - 0) s
idle r w s v = weaken r (r - 0) w (w - 0) s (omega arith) (omega arith) v

pub read_rank-le : (p : ReadPhase) → read_rank p ≤ 2
read_rank-le reading = omega arith
read_rank-le read_returns = omega arith
read_rank-le read_ended = omega arith

pub write_rank-le : (p : WritePhase) → write_rank p ≤ 3
write_rank-le selecting = omega arith
write_rank-le (writing frame last) = omega arith
write_rank-le write_returns = omega arith
write_rank-le write_ended = omega arith

pub read_ended_of_rank : (p : ReadPhase) → read_rank p ≤ 0 → p ≡ read_ended
read_ended_of_rank reading h = absurd (omega arith)
read_ended_of_rank read_returns h = absurd (omega arith)
read_ended_of_rank read_ended h = refl

pub write_ended_of_rank : (p : WritePhase) → write_rank p ≤ 0 → p ≡ write_ended
write_ended_of_rank selecting h = absurd (omega arith)
write_ended_of_rank (writing frame last) h = absurd (omega arith)
write_ended_of_rank write_returns h = absurd (omega arith)
write_ended_of_rank write_ended h = refl

pub moved-Closing :
    (q : WritePhase) (r k w : ℕ) (s : Session)
    → write_rank q ≤ k
    → Closing r w s
    → Closing r k (record s { writer = q })
moved-Closing q r k w s h v = record {
  done = v.done;
  once = v.once;
  reader_rank = v.reader_rank;
  writer_rank = h;
}

-- A branch that is taken, and the first two of three where the second is not passed over.
if_true {ℓ κ} :
    {A : Type ℓ} (P : A → Type κ) (b : Bool) {x : A} (y : A)
    → b ≡ true
    → P x
    → P (if b then x else y)
if_true P true y e p = p
if_true P false y e p = absurd (cc)

first_true {ℓ κ} :
    {A : Type ℓ} (P : A → Type κ) (a b : Bool) {x y : A} (z : A)
    → b ≡ true
    → P x
    → P y
    → P (if a then x else if b then y else z)
first_true P true b z e p q = p
first_true P false b z e p q = if_true P b z e q

-- A closed connection always has a case that is ready.
message_waits-Closing :
    (buffer : List Bytes) (r w : ℕ) (s : Session)
    → Closing r w s
    → Closing r 2 (elim buffer [
      | msg ∷ rest ↦ take_message (msg ∷ rest) s
      | [] ↦
          if s.conn.done
          then record s { writer = write_returns }
          else if s.server_done
          then stop_frame s
          else s
    ])
unfolding take_message
message_waits-Closing [] r w s v =
    if_true (Closing r 2) s.conn.done _ v.done (moved-Closing write_returns r 2 w s (omega arith) v)
message_waits-Closing (msg ∷ rest) r w s v = record {
  done = v.done;
  once = v.once;
  reader_rank = v.reader_rank;
  writer_rank = omega arith;
}

pub select_case-Closing :
    (wish : Case) (r w : ℕ) (s : Session) → Closing r w s → Closing r 2 (select_case wish s)
unfolding select_case stop_frame
select_case-Closing server_stops r w s v =
    first_true (Closing r 2) s.server_done s.conn.done _ v.done
      (moved-Closing (writing (close_message close_normal_closure "") true) r 2 w s (omega arith) v)
      (moved-Closing write_returns r 2 w s (omega arith) v)
select_case-Closing connection_closed r w s v =
    if_true (Closing r 2) s.conn.done _ v.done (moved-Closing write_returns r 2 w s (omega arith) v)
select_case-Closing message_waits r w s v = message_waits-Closing s.conn.send_buffer r w s v
select_case-Closing ticker_fires r w s v =
    moved-Closing (writing ping_message false) r 2 w s (omega arith) v

pub after_write-Closing :
    (frame : Frame) (last : Bool) (r w : ℕ) (s : Session)
    → Closing r w s
    → Closing r 1 (after_write frame last s (write_message true frame s.conn))
unfolding after_write write_message
after_write-Closing frame last r w s v = record {
  done = v.done;
  once = v.once;
  reader_rank = v.reader_rank;
  writer_rank = omega arith;
}
