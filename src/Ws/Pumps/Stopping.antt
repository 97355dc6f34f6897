-- ===== src/Ws/Pumps/Stopping.antt =====
-- ws/server.go, `Stop` and `writePump`: how the write pump of a connection ends when the server stops.
use go_wst.Prelude.{
  ℕ, ◌-◌, ◌≤◌, ◌≡◌, refl, List, [], ◌∷◌, none, true, false, arith, Bool-cases, inl, inr,
}
use go_wst.Prelude.Go.{returns}
use go_wst.Protocol.Message.{Bytes}
use go_wst.Ws.Connection.{
  close_message, close_normal_closure, Choice, context_done, connection_done, buffered, ready, send,
}
use go_wst.Ws.Connection.Laws.{closed, close_lem}
use go_wst.Ws.Pumps.{
  Socket, ReadPhase, reading, read_returns, read_ended, WritePhase, selecting, writing,
  write_returns, write_ended, Session, server_stops, stop_frame, select_case, close_session,
  read_answer, read_pump, write_pump, Event, sends, closes, stops, reads, writes, after_send, step,
  run,
}
use go_wst.Ws.Pumps.Invariant.{IsSession, is_over}
use go_wst.Ws.Pumps.Closing.{write_turn, write_turns}
use go_wst.Ws.Pumps.StopRank.{
  stop_rank, SeesStop, Stopping, closed-done, in_loop-Stopping, after_write-Stopping,
  read_answer-Stopping, same_turns, stop_rank-le, ended_of_stop_rank,
}

module _ (socket : Socket) where
  close_session-Stopping :
      (now w : ℕ) (s : Session)
      → s.server_done ≡ true
      → s.conn.done ≡ s.conn.once
      → stop_rank s.writer ≤ w
      → (s' : Session) × (close_session socket now s ≡ returns s') × Stopping w s'
  unfolding close_session
  close_session-Stopping now w s stopped once rank =
      let fails = socket.write_fails s.conn.done now in
      let (done, same) = closed-done fails s.conn once in
      (
        record s { conn = closed fails s.conn },
        rw (close_lem fails none s.conn once) refl,
        record { stopped = stopped; once = same; rank = rank; over = λ e. done },
      )

  read_pump-Stopping :
      (now w : ℕ) (p : ReadPhase) (s : Session)
      → Stopping w s
      → (s' : Session) × (read_pump socket now p s ≡ returns s') × Stopping w s'
  unfolding read_pump read_answer
  read_pump-Stopping now w reading s v =
      (_, refl, read_answer-Stopping (socket.read s.conn.done now) w s v)
  read_pump-Stopping now w read_returns s v =
      close_session-Stopping now w (record s { reader = read_ended }) v.stopped v.once v.rank
  read_pump-Stopping now w read_ended s v = (s, refl, v)

  write_pump-Stopping :
      (now w : ℕ) (p : WritePhase) (s : Session)
      → s.writer ≡ p
      → Stopping w s
      → (s' : Session) × (write_pump socket now server_stops p s ≡ returns s') × Stopping (w - 1) s'
  unfolding write_pump select_case stop_frame
  write_pump-Stopping now w selecting s e v =
      let room : 3 ≤ w = rw e at v.rank in
      (
        stop_frame s,
        rw v.stopped refl,
        in_loop-Stopping (writing (close_message close_normal_closure "") true) (w - 1) w s
            (omega arith) (omega arith) v,
      )
  write_pump-Stopping now w (writing frame last) s e v = (
    _,
    refl,
    after_write-Stopping (socket.write_fails s.conn.done now) frame last w s (rw e at v.rank) v,
  )
  write_pump-Stopping now w write_returns s e v =
      close_session-Stopping now (w - 1) (record s { writer = write_ended }) v.stopped v.once
        (omega arith)
  write_pump-Stopping now w write_ended s e v = (
    s,
    refl,
    record { stopped = v.stopped; once = v.once; rank = rw e (omega arith); over = v.over },
  )

  after_send-Stopping :
      (choice : Choice) (msg : Bytes) (w : ℕ) (s : Session)
      → Stopping w s
      → Stopping w (after_send msg s (send choice msg s.conn))
  unfolding after_send send
  after_send-Stopping context_done msg w s v = record {
    stopped = v.stopped;
    once = v.once;
    rank = v.rank;
    over = v.over;
  }
  after_send-Stopping connection_done msg w s v = record {
    stopped = v.stopped;
    once = v.once;
    rank = v.rank;
    over = v.over;
  }
  after_send-Stopping buffered msg w s v = record {
    stopped = v.stopped;
    once = v.once;
    rank = v.rank;
    over = v.over;
  }

  step-Stopping :
      (e : Event) (w : ℕ) (s : Session)
      → SeesStop (e ∷ [])
      → Stopping w s
      → (s' : Session) × (step socket e s ≡ returns s') × Stopping (w - write_turn e) s'
  unfolding step
  step-Stopping (sends cancelled choice msg) w s sees v =
      elim (Bool-cases (ready cancelled s.conn choice)) [
        | inl now ↦ rw now (_, refl, same_turns w _ (after_send-Stopping choice msg w s v))
        | inr later ↦ rw later (s, refl, same_turns w s v)
      ]
  step-Stopping (closes now) w s sees v =
      let (s', done, v') = close_session-Stopping now w s v.stopped v.once v.rank in
      (s', done, same_turns w s' v')
  step-Stopping stops w s sees v = (
    record s { server_done = true },
    refl,
    same_turns w _ (record { stopped = refl; once = v.once; rank = v.rank; over = v.over }),
  )
  step-Stopping (reads now) w s sees v =
      let (s', done, v') = read_pump-Stopping now w s.reader s v in (s', done, same_turns w s' v')
  step-Stopping (writes now wish) w s sees v =
      rw sees.0 (write_pump-Stopping now w s.writer s refl v)

  SeesStop-parts :
      (e : Event) (events : List Event)
      → SeesStop (e ∷ events)
      → SeesStop (e ∷ []) × SeesStop events
  SeesStop-parts (sends cancelled choice msg) events sees = (tt, sees)
  SeesStop-parts (closes now) events sees = (tt, sees)
  SeesStop-parts stops events sees = (tt, sees)
  SeesStop-parts (reads now) events sees = (tt, sees)
  SeesStop-parts (writes now wish) events sees = ((sees.0, tt), sees.1)

  run-Stopping :
      (events : List Event) (w : ℕ) (s : Session)
      → SeesStop events
      → w ≤ write_turns events
      → Stopping w s
      → (s' : Session) × (run socket events s ≡ returns s') × Stopping 0 s'
  unfolding run
  run-Stopping [] w s sees h v = (
    s,
    refl,
    record { stopped = v.stopped; once = v.once; rank = omega (arith, v.rank); over = v.over },
  )
  run-Stopping (e ∷ events) w s sees h v =
      let (first, others) = SeesStop-parts e events sees in
      let (s', done, v') = step-Stopping e w s first v in
      let (s'', done', v'') = run-Stopping events (w - write_turn e) s' others (omega arith) v' in
      (s'', rw done done', v'')

  -- Once the server stops, any schedule in which the write pump of a connection that is still in its
  -- loop takes four steps, and its `select` sees the stop, ends the pump and closes the connection,
  -- whatever is sent, read and closed in between and whether or not the writes succeed.
  pub run-stopped :
      (events : List Event) (s : Session)
      → IsSession s
      → is_over s.writer ≡ false
      → s.server_done ≡ true
      → SeesStop events
      → 4 ≤ write_turns events
      → (s' : Session) × (run socket events s ≡ returns s')
        × (s'.writer ≡ write_ended)
        × (s'.conn.done ≡ true)
  run-stopped events s v loops stopped sees turns =
      let (s', done, v') = run-Stopping events 4 s sees turns (record {
        stopped = stopped;
        once = v.once;
        rank = stop_rank-le s.writer;
        over = λ e. absurd (let z : is_over write_ended ≡ false = rw e at loops in cc);
      }) in
      let ended = ended_of_stop_rank s'.writer v'.rank in (s', done, ended, v'.over ended)
