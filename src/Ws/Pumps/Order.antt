-- ===== src/Ws/Pumps/Order.antt =====
-- ws/server.go, `readPump` and `writePump`: what reaches the peer, and the end of the reading, over
-- all schedules.
use go_wst.Prelude.{
  ℕ, ◌≡◌, refl, ap, ◌∙◌, ◌⊎◌, inl, inr, String, List, [], ◌∷◌, ◌++◌, none, Bool, true, length,
  Bool-cases,
}
use mathlib.Core.List.{append_assoc}
use go_wst.Prelude.Int.{ℤ}
use go_wst.Prelude.Go.{returns}
use go_wst.Protocol.Message.{Bytes}
use go_wst.Ws.Connection.{Choice, context_done, connection_done, buffered, ready, send}
use go_wst.Ws.Connection.Laws.{closed, close_lem}
use go_wst.Ws.Pumps.{
  Socket, ReadPhase, reading, read_returns, read_ended, WritePhase, selecting, writing,
  write_returns, write_ended, Session, new_session, Case, close_session, read_pump, write_pump,
  Event, sends, closes, stops, reads, writes, after_send, step, run,
}
use go_wst.Ws.Pumps.Invariant.{
  texts, in_flight, is_over, notices, IsSession, closed-texts, read_answer-IsSession,
  select_case-IsSession, after_write-IsSession,
}

module _ (socket : Socket) where
  close_session-IsSession :
      (now : ℕ) (s : Session)
      → IsSession s
      → (s' : Session) × (close_session socket now s ≡ returns s') × IsSession s'
  unfolding close_session
  close_session-IsSession now s v =
      let fails : Bool = socket.write_fails s.conn.done now in
      let (wire, buffer, once) = closed-texts fails s.conn in
      (
        record s { conn = closed fails s.conn },
        rw (close_lem fails none s.conn v.once),
        record {
          once = once v.once;
          order = rw (wire, buffer) v.order;
          kept = v.kept;
          noticed = v.noticed;
        },
      )

  read_pump-IsSession :
      (now : ℕ) (p : ReadPhase) (s : Session)
      → s.reader ≡ p
      → IsSession s
      → (s' : Session) × (read_pump socket now p s ≡ returns s') × IsSession s'
  unfolding read_pump
  read_pump-IsSession now reading s e v =
      (_, refl, read_answer-IsSession (socket.read s.conn.done now) s e v)
  read_pump-IsSession now read_returns s e v =
      close_session-IsSession now (record s { reader = read_ended })
        (record {
          once = v.once;
          order = v.order;
          kept = v.kept;
          noticed = v.noticed ∙ ap notices e;
        })
  read_pump-IsSession now read_ended s e v = (s, refl, v)

  write_pump-IsSession :
      (now : ℕ) (wish : Case) (p : WritePhase) (s : Session)
      → s.writer ≡ p
      → IsSession s
      → (s' : Session) × (write_pump socket now wish p s ≡ returns s') × IsSession s'
  unfolding write_pump
  write_pump-IsSession now wish selecting s e v = (_, refl, select_case-IsSession wish s e v)
  write_pump-IsSession now wish (writing frame last) s e v =
      (_, refl, after_write-IsSession (socket.write_fails s.conn.done now) frame last s e v)
  write_pump-IsSession now wish write_returns s e v =
      close_session-IsSession now (record s { writer = write_ended })
        (record {
          once = v.once;
          order = rw e at v.order;
          kept = elim v.kept [ inl none_lost ↦ inl none_lost | inr lost ↦ inr (refl, lost.1) ];
          noticed = v.noticed;
        })
  write_pump-IsSession now wish write_ended s e v = (s, refl, v)

  sends-IsSession :
      (choice : Choice) (msg : Bytes) (s : Session)
      → IsSession s
      → IsSession (after_send msg s (send choice msg s.conn))
  unfolding after_send send
  sends-IsSession context_done msg s v = record {
    once = v.once;
    order = v.order;
    kept = v.kept;
    noticed = v.noticed;
  }
  sends-IsSession connection_done msg s v = record {
    once = v.once;
    order = v.order;
    kept = v.kept;
    noticed = v.noticed;
  }
  sends-IsSession buffered msg s v = record {
    once = v.once;
    order = ap (λ t. t ++ msg ∷ []) v.order ∙ simp append_assoc;
    kept = v.kept;
    noticed = v.noticed;
  }

  step-IsSession :
      (e : Event) (s : Session)
      → IsSession s
      → (s' : Session) × (step socket e s ≡ returns s') × IsSession s'
  unfolding step
  step-IsSession (sends cancelled choice msg) s v =
      elim (Bool-cases (ready cancelled s.conn choice)) [
        | inl now ↦ rw now (_, refl, sends-IsSession choice msg s v)
        | inr later ↦ rw later (s, refl, v)
      ]
  step-IsSession (closes now) s v = close_session-IsSession now s v
  step-IsSession stops s v =
      (_, refl, record { once = v.once; order = v.order; kept = v.kept; noticed = v.noticed })
  step-IsSession (reads now) s v = read_pump-IsSession now s.reader s refl v
  step-IsSession (writes now wish) s v = write_pump-IsSession now wish s.writer s refl v

  run-IsSession :
      (events : List Event) (s : Session)
      → IsSession s
      → (s' : Session) × (run socket events s ≡ returns s') × IsSession s'
  unfolding run
  run-IsSession [] s v = (s, refl, v)
  run-IsSession (e ∷ events) s v =
      let (s', done, v') = step-IsSession e s v in
      let (s'', done', v'') = run-IsSession events s' v' in (s'', rw done done', v'')

  -- Whatever the goroutines of a new connection do, in whatever order and whatever the socket
  -- answers, as long as no two of them write to the socket at the same time, none closes a channel
  -- twice, and the messages that `Send` accepted are, in this order, those on the wire, at most one
  -- whose write failed, the one in the hands of the write pump, and those in the channel, which are
  -- never written once the pump has ended; so what the peer receives is in order, with none twice
  -- and no gap. A write of a message fails only as the write pump leaves its loop, and
  -- `OnDisconnect` has been called exactly once when the read pump has left its own, and not before.
  pub run-new_session :
      (id : String) (write_timeout : ℤ) (events : List Event)
      → (s : Session) × (run socket events (new_session id write_timeout) ≡ returns s)
        × (s.accepted
            ≡ texts s.conn.wire ++ (s.dropped ++ (in_flight s.writer ++ s.conn.send_buffer)))
        × ((s.dropped ≡ []) ⊎ ((is_over s.writer ≡ true) × (length s.dropped ≡ 1)))
        × (s.disconnects ≡ notices s.reader)
  unfolding new_session
  run-new_session id write_timeout events =
      let (s, done, v) =
        run-IsSession events (new_session id write_timeout)
          (record { once = refl; order = refl; kept = inl refl; noticed = refl }) in
      (s, done, v.order, v.kept, v.noticed)
