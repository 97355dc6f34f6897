-- ===== src/Wt/Pumps/Order.antt =====
-- wt/server.go, `handleStream` and `writePump`: what reaches the peer, and on which stream, over all
-- schedules.
use go_wst.Prelude.{
  ℕ, ◌≡◌, refl, sym, ap, ◌∙◌, ◌⊎◌, inl, inr, String, List, [], ◌∷◌, ◌++◌, Option, none, some, Bool,
  true, length, length-append, arith, Bool-cases, Option-cases, All, All-mono,
}
use mathlib.Core.List.{append_assoc}
use go_wst.Prelude.Int.{ℤ}
use go_wst.Prelude.Go.{returns}
use go_wst.Protocol.Message.{Bytes}
use go_wst.Wt.Connection.{
  Connection, Choice, context_done, connection_done, buffered, ready, send, close,
  set_response_stream,
}
use go_wst.Wt.Connection.Laws.{new_connection-IsConnection}
use go_wst.Wt.Pumps.{
  Streams, StreamPhase, unopened, accepted_stream, checking, reading, stream_ended, WritePhase,
  unready, selecting, writing, write_ended, Session, new_session, Case, to_reader, wants_end,
  handle_stream, write_pump, open_stream, Event, sends, closes, stops, opens, reads, writes,
  after_send, step, run,
}
use go_wst.Wt.Pumps.Invariant.{
  sent, in_hand, is_over, IsSession, to_reader-IsSession, read_answer-IsSession, apart_of_none,
  select_case-IsSession, select_ready-IsSession, write_message-IsSession,
}

-- The first stream that is offered is kept; nothing has been written before.
offer-IsSession :
    (j : ℕ) (s : Session)
    → IsSession s
    → (c : Connection) × (set_response_stream j s.conn ≡ returns c)
      × IsSession (record s { conn = c })
unfolding set_response_stream
offer-IsSession j s v = elim (Option-cases s.conn.response_stream) [
  | inl e ↦ (
    record s.conn { response_stream = some j; stream_ready = true },
    ground (arith, v.valid.ready_once),
    record {
      valid = record {
        closed_once = v.valid.closed_once;
        ready_once = refl;
        bounded = v.valid.bounded;
      };
      order = v.order;
      kept = v.kept;
      on_stream = All-mono _ _ s.wire (λ w h. absurd (apart_of_none (sym e ∙ h))) v.on_stream;
    },
  )
  | inr (old, e) ↦ (s.conn, rw e, v)
]

close-IsSession :
    (error : Option String) (s : Session)
    → IsSession s
    → (c : Connection) × (r : Option String) × (close error s.conn ≡ returns (c, r))
      × IsSession (record s { conn = c })
unfolding close
close-IsSession error s v = elim (Bool-cases s.conn.once) [
  | inl again ↦ (s.conn, none, rw again, v)
  | inr first ↦ (
    record s.conn { once = true; done = true },
    error,
    ground (arith, v.valid.closed_once),
    record {
      valid = record {
        closed_once = refl;
        ready_once = v.valid.ready_once;
        bounded = v.valid.bounded;
      };
      order = v.order;
      kept = v.kept;
      on_stream = v.on_stream;
    },
  )
]

sends-IsSession :
    (cancelled : Bool) (choice : Choice) (msg : Bytes) (s : Session)
    → ready cancelled s.conn choice ≡ true
    → IsSession s
    → IsSession (after_send msg s (send choice msg s.conn))
unfolding after_send send ready
sends-IsSession cancelled context_done msg s h v = record {
  valid = v.valid;
  order = v.order;
  kept = v.kept;
  on_stream = v.on_stream;
}
sends-IsSession cancelled connection_done msg s h v = record {
  valid = v.valid;
  order = v.order;
  kept = v.kept;
  on_stream = v.on_stream;
}
sends-IsSession cancelled buffered msg s h v = record {
  valid = record {
    closed_once = v.valid.closed_once;
    ready_once = v.valid.ready_once;
    bounded = ground (arith, length-append s.conn.send_buffer (msg ∷ []));
  };
  order = ap (λ t. t ++ msg ∷ []) v.order ∙ simp append_assoc;
  kept = v.kept;
  on_stream = v.on_stream;
}

open_stream-IsSession :
    (j : ℕ) (p : StreamPhase) (s : Session) → IsSession s → IsSession (open_stream j p s)
unfolding open_stream
open_stream-IsSession j unopened s v = to_reader-IsSession j accepted_stream s v
open_stream-IsSession j accepted_stream s v = v
open_stream-IsSession j checking s v = v
open_stream-IsSession j reading s v = v
open_stream-IsSession j stream_ended s v = v

module _ (streams : Streams) where
  handle_stream-IsSession :
      (now j : ℕ) (p : StreamPhase) (s : Session)
      → IsSession s
      → (s' : Session) × (handle_stream streams now j p s ≡ returns s') × IsSession s'
  unfolding handle_stream
  handle_stream-IsSession now j unopened s v = (s, refl, v)
  handle_stream-IsSession now j accepted_stream s v =
      let (c, done, v') = offer-IsSession j s v in
      (
        record (to_reader j checking s) { conn = c },
        rw done,
        to_reader-IsSession j checking (record s { conn = c }) v',
      )
  handle_stream-IsSession now j checking s v = (_, refl, to_reader-IsSession j _ s v)
  handle_stream-IsSession now j reading s v =
      (_, refl, read_answer-IsSession j (streams.read s.conn.done j now) s v)
  handle_stream-IsSession now j stream_ended s v = (s, refl, v)

  write_pump-IsSession :
      (now : ℕ) (wish : Case) (p : WritePhase) (s : Session)
      → s.writer ≡ p
      → IsSession s
      → IsSession (write_pump streams now wish p s)
  unfolding write_pump
  write_pump-IsSession now wish unready s e v = select_ready-IsSession (wants_end wish) s e v
  write_pump-IsSession now wish selecting s e v = select_case-IsSession wish s e v
  write_pump-IsSession now wish (writing msg) s e v =
      write_message-IsSession (streams.write_fails s.conn.done now) msg s.conn.response_stream s
        refl e v
  write_pump-IsSession now wish write_ended s e v = v

  step-IsSession :
      (e : Event) (s : Session)
      → IsSession s
      → (s' : Session) × (step streams e s ≡ returns s') × IsSession s'
  unfolding step
  step-IsSession (sends cancelled choice msg) s v =
      elim (Bool-cases (ready cancelled s.conn choice)) [
        | inl now ↦ rw now (_, refl, sends-IsSession cancelled choice msg s now v)
        | inr later ↦ rw later (s, refl, v)
      ]
  step-IsSession (closes error) s v =
      let (c, r, done, v') = close-IsSession error s v in (record s { conn = c }, rw done, v')
  step-IsSession stops s v =
      (_, refl, record { valid = v.valid; order = v.order; kept = v.kept; on_stream = v.on_stream })
  step-IsSession (opens j) s v = (_, refl, open_stream-IsSession j (s.readers j) s v)
  step-IsSession (reads j now) s v = handle_stream-IsSession now j (s.readers j) s v
  step-IsSession (writes now wish) s v = (_, refl, write_pump-IsSession now wish s.writer s refl v)

  pub run-IsSession :
      (events : List Event) (s : Session)
      → IsSession s
      → (s' : Session) × (run streams events s ≡ returns s') × IsSession s'
  unfolding run
  run-IsSession [] s v = (s, refl, v)
  run-IsSession (e ∷ events) s v =
      let (s', done, v') = step-IsSession e s v in
      let (s'', done', v'') = run-IsSession events s' v' in (s'', rw done done', v'')

  -- Whatever the goroutines of a new WebTransport connection do, in whatever order and whatever the
  -- streams answer, none panics; the messages that `Send` accepted are, in this order, those on the
  -- wire, at most one whose write failed as the write pump ended, the one in its hands, and those in
  -- the channel, which are never written once the pump has ended; and all that is on the wire is on
  -- one stream, the response stream.
  pub run-new_session-streams :
      (id : String) (write_timeout : ℤ) (events : List Event)
      → (s : Session) × (run streams events (new_session id write_timeout) ≡ returns s)
        × (s.accepted ≡ sent s.wire ++ (s.dropped ++ (in_hand s.writer ++ s.conn.send_buffer)))
        × ((s.dropped ≡ []) ⊎ ((is_over s.writer ≡ true) × (length s.dropped ≡ 1)))
        × All (λ e. s.conn.response_stream ≡ some e.0) s.wire
  unfolding new_session
  run-new_session-streams id write_timeout events =
      let (s, done, v) = run-IsSession events (new_session id write_timeout) (record {
        valid = new_connection-IsConnection id write_timeout;
        order = refl;
        kept = inl refl;
        on_stream = tt;
      }) in
      (s, done, v.order, v.kept, v.on_stream)
