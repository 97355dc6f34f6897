-- ===== src/Ws/Pumps/Ending.antt =====
-- ws/server.go, `readPump` and `writePump`: how the two goroutines of a closed connection end.
use go_wst.Prelude.{
  ℕ, suc, ◌-◌, ◌≤◌, ◌≡◌, refl, sym, ap, ◌∙◌, List, [], ◌∷◌, none, true, arith, Bool-cases, inl, inr,
}
use go_wst.Prelude.Go.{returns}
use go_wst.Protocol.Message.{Bytes}
use go_wst.Ws.Connection.{
  Choice, context_done, connection_done, buffered, ready, send, write_message, close,
}
use go_wst.Ws.Pumps.{
  Socket, ReadPhase, reading, read_returns, read_ended, WritePhase, selecting, writing,
  write_returns, write_ended, Session, Case, after_write, close_session, read_answer, read_pump,
  write_pump, Event, sends, closes, stops, reads, writes, after_send, step, run,
}
use go_wst.Ws.Pumps.Invariant.{IsSession}
use go_wst.Ws.Pumps.Closing.{
  read_rank, write_rank, read_turn, write_turn, read_turns, write_turns, Closing, weaken, idle,
  read_rank-le, write_rank-le, read_ended_of_rank, write_ended_of_rank, moved-Closing,
  select_case-Closing, after_write-Closing,
}

module _ (socket : Socket) where
  close_session_again :
      (now r w : ℕ) (s : Session) → Closing r w s → close_session socket now s ≡ returns s
  unfolding close_session close
  close_session_again now r w s v = rw (v.once)

  read_pump-Closing :
      ((now : ℕ) → socket.read true now ≡ none)
      → (now r w : ℕ) (p : ReadPhase) (s : Session) → s.reader ≡ p
      → Closing r w s
      → (s' : Session) × (read_pump socket now p s ≡ returns s') × Closing (r - 1) w s'
  unfolding read_pump read_answer
  read_pump-Closing broken now r w reading s e v = (
    record s { disconnects = suc s.disconnects; reader = read_returns },
    rw (v.done, broken now),
    record {
      done = v.done;
      once = v.once;
      reader_rank = omega (arith, v.reader_rank, ap read_rank e);
      writer_rank = v.writer_rank;
    },
  )
  read_pump-Closing broken now r w read_returns s e v =
      let v' : Closing (r - 1) w (record s { reader = read_ended }) = record {
        done = v.done;
        once = v.once;
        reader_rank = omega arith;
        writer_rank = v.writer_rank;
      } in
      (_, close_session_again now (r - 1) w (record s { reader = read_ended }) v', v')
  read_pump-Closing broken now r w read_ended s e v = (
    s,
    refl,
    record {
      done = v.done;
      once = v.once;
      reader_rank = omega (arith, ap read_rank e);
      writer_rank = v.writer_rank;
    },
  )

  write_pump-Closing :
      ((now : ℕ) → socket.write_fails true now ≡ true)
      → (now : ℕ) (wish : Case) (r w : ℕ) (p : WritePhase) (s : Session) → s.writer ≡ p
      → Closing r w s
      → (s' : Session) × (write_pump socket now wish p s ≡ returns s') × Closing r (w - 1) s'
  unfolding write_pump
  write_pump-Closing broken now wish r w selecting s e v = (
    _,
    refl,
    weaken r r 2 (w - 1) _ (omega arith) (omega (arith, v.writer_rank, ap write_rank e))
        (select_case-Closing wish r w s v),
  )
  write_pump-Closing broken now wish r w (writing frame last) s e v = (
    after_write frame last s (write_message true frame s.conn),
    rw (v.done, broken now),
    weaken r r 1 (w - 1) _ (omega arith) (omega (arith, v.writer_rank, ap write_rank e))
        (after_write-Closing frame last r w s v),
  )
  write_pump-Closing broken now wish r w write_returns s e v =
      let v' : Closing r (w - 1) (record s { writer = write_ended }) =
        moved-Closing write_ended r (w - 1) w s (omega arith) v in
      (_, close_session_again now r (w - 1) (record s { writer = write_ended }) v', v')
  write_pump-Closing broken now wish r w write_ended s e v = (
    s,
    refl,
    weaken r r 0 (w - 1) s (omega arith) (omega arith) (record {
      done = v.done;
      once = v.once;
      reader_rank = v.reader_rank;
      writer_rank = omega (arith, ap write_rank e);
    }),
  )

  after_send-Closing :
      (choice : Choice) (msg : Bytes) (r w : ℕ) (s : Session)
      → Closing r w s
      → Closing r w (after_send msg s (send choice msg s.conn))
  unfolding after_send send
  after_send-Closing context_done msg r w s v = record {
    done = v.done;
    once = v.once;
    reader_rank = v.reader_rank;
    writer_rank = v.writer_rank;
  }
  after_send-Closing connection_done msg r w s v = record {
    done = v.done;
    once = v.once;
    reader_rank = v.reader_rank;
    writer_rank = v.writer_rank;
  }
  after_send-Closing buffered msg r w s v = record {
    done = v.done;
    once = v.once;
    reader_rank = v.reader_rank;
    writer_rank = v.writer_rank;
  }

  module _ (reads_fail : (now : ℕ) → socket.read true now ≡ none)
      (writes_fail : (now : ℕ) → socket.write_fails true now ≡ true) where
    step-Closing :
        (e : Event) (r w : ℕ) (s : Session)
        → Closing r w s
        → (s' : Session) × (step socket e s ≡ returns s')
          × Closing (r - read_turn e) (w - write_turn e) s'
    unfolding step
    step-Closing (sends cancelled choice msg) r w s v =
        elim (Bool-cases (ready cancelled s.conn choice)) [
          | inl now ↦ rw now (_, refl, idle r w _ (after_send-Closing choice msg r w s v))
          | inr later ↦ rw later (s, refl, idle r w s v)
        ]
    step-Closing (closes now) r w s v = (s, close_session_again now r w s v, idle r w s v)
    step-Closing stops r w s v = (
      record s { server_done = true },
      refl,
      idle r w _ (record {
        done = v.done;
        once = v.once;
        reader_rank = v.reader_rank;
        writer_rank = v.writer_rank;
      }),
    )
    step-Closing (reads now) r w s v =
        let (s', done, v') = read_pump-Closing reads_fail now r w s.reader s refl v in
        (s', done, weaken (r - 1) (r - 1) w (w - 0) s' (omega arith) (omega arith) v')
    step-Closing (writes now wish) r w s v =
        let (s', done, v') = write_pump-Closing writes_fail now wish r w s.writer s refl v in
        (s', done, weaken r (r - 0) (w - 1) (w - 1) s' (omega arith) (omega arith) v')

    run-Closing :
        (events : List Event) (r w : ℕ) (s : Session)
        → r ≤ read_turns events
        → w ≤ write_turns events
        → Closing r w s
        → (s' : Session) × (run socket events s ≡ returns s') × Closing 0 0 s'
    unfolding run
    run-Closing [] r w s hr hw v = (s, refl, weaken r 0 w 0 s hr hw v)
    run-Closing (e ∷ events) r w s hr hw v =
        let (s', done, v') = step-Closing e r w s v in
        let (s'', done', v'') =
          run-Closing events (r - read_turn e) (w - write_turn e) s' (omega arith) (omega arith)
            v' in
        (s'', rw done done', v'')

    -- Where a closed socket fails every read and every write: once the connection is closed, any
    -- schedule in which the read pump takes two steps and the write pump three, and anything else
    -- happens in between, ends both, whichever ready case the write pump selects.
    pub run-ended :
        (events : List Event) (s : Session)
        → IsSession s
        → s.conn.done ≡ true
        → 2 ≤ read_turns events
        → 3 ≤ write_turns events
        → (s' : Session) × (run socket events s ≡ returns s')
          × (s'.reader ≡ read_ended)
          × (s'.writer ≡ write_ended)
          × (s'.conn.done ≡ true)
    run-ended events s v closed hr hw =
        let (s', done, v') = run-Closing events 2 3 s hr hw (record {
          done = closed;
          once = sym v.once ∙ closed;
          reader_rank = read_rank-le s.reader;
          writer_rank = write_rank-le s.writer;
        }) in
        (
          s',
          done,
          read_ended_of_rank s'.reader v'.reader_rank,
          write_ended_of_rank s'.writer v'.writer_rank,
          v'.done,
        )
