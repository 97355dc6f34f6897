-- ===== src/Ws/Pumps/StopRank.antt =====
-- ws/server.go, `Stop` and `writePump`: how far the write pump of a connection is from its end when
-- the server stops, and that the steps come closer to it that do not ask the socket.
use go_wst.Prelude.{
  ℕ, ◌-◌, ◌≤◌, ◌<◌, ◌≡◌, refl, ◌∙◌, List, [], ◌∷◌, Option, none, some, Bool, true, false, arith,
  Bool-cases, inl, inr,
}
use go_wst.Protocol.Message.{Bytes}
use go_wst.Ws.Connection.{Connection, Frame, write_message}
use go_wst.Ws.Connection.Laws.{closed}
use go_wst.Ws.Pumps.{
  WritePhase, selecting, writing, write_returns, write_ended, Session, server_stops, after_write,
  read_answer, Event, writes,
}

-- How many steps the write pump is away from its end, where each `select` sees that the server stops.
abbrev pub stop_rank : WritePhase → ℕ
stop_rank selecting = 3
stop_rank (writing frame true) = 2
stop_rank (writing frame false) = 4
stop_rank write_returns = 1
stop_rank write_ended = 0

-- The `select` of the write pump runs the case of the stop whenever the schedule gets to it.
abbrev pub SeesStop : List Event → Type 0
SeesStop [] = Unit {0}
SeesStop (writes now wish ∷ events) = (wish ≡ server_stops) × SeesStop events
SeesStop (_ ∷ events) = SeesStop events

pub record Stopping (w : ℕ) (s : Session) : Type 0 where
  pub stopped : s.server_done ≡ true
  pub once : s.conn.done ≡ s.conn.once
  pub rank : stop_rank s.writer ≤ w
  pub over : s.writer ≡ write_ended → s.conn.done ≡ true

pub closed-done :
    (fails : Bool) (c : Connection)
    → c.done ≡ c.once
    → ((closed fails c).done ≡ true) × ((closed fails c).done ≡ (closed fails c).once)
unfolding closed write_message
closed-done fails c e = elim (Bool-cases c.once) [
  | inl first ↦ rw first (e ∙ first, e ∙ first)
  | inr later ↦ elim (Bool-cases fails) [
    | inl f ↦ rw (later, f) (refl, refl)
    | inr f ↦ rw (later, f) (refl, refl)
  ]
]

pub in_loop-Stopping :
    (q : WritePhase) (k w : ℕ) (s : Session)
    → stop_rank q ≤ k
    → 0 < stop_rank q
    → Stopping w s
    → Stopping k (record s { writer = q })
in_loop-Stopping q k w s h more v = record {
  stopped = v.stopped;
  once = v.once;
  rank = h;
  over = λ e. absurd (let z : 0 < stop_rank write_ended = rw e at more in omega arith);
}

pub after_write-Stopping :
    (fails : Bool) (frame : Frame) (last : Bool) (w : ℕ) (s : Session)
    → stop_rank (writing frame last) ≤ w
    → Stopping w s
    → Stopping (w - 1) (after_write frame last s (write_message fails frame s.conn))
unfolding after_write write_message
after_write-Stopping true frame true w s h v = record {
  stopped = v.stopped;
  once = v.once;
  rank = omega arith;
  over = λ e. absurd (cc);
}
after_write-Stopping true frame false w s h v = record {
  stopped = v.stopped;
  once = v.once;
  rank = omega arith;
  over = λ e. absurd (cc);
}
after_write-Stopping false frame true w s h v = record {
  stopped = v.stopped;
  once = v.once;
  rank = omega arith;
  over = λ e. absurd (cc);
}
after_write-Stopping false frame false w s h v = record {
  stopped = v.stopped;
  once = v.once;
  rank = omega arith;
  over = λ e. absurd (cc);
}

pub read_answer-Stopping :
    (answer : Option Bytes) (w : ℕ) (s : Session) → Stopping w s → Stopping w (read_answer answer s)
unfolding read_answer
read_answer-Stopping none w s v = record {
  stopped = v.stopped;
  once = v.once;
  rank = v.rank;
  over = v.over;
}
read_answer-Stopping (some msg) w s v = record {
  stopped = v.stopped;
  once = v.once;
  rank = v.rank;
  over = v.over;
}

pub same_turns : (w : ℕ) (s : Session) → Stopping w s → Stopping (w - 0) s
same_turns w s v = record {
  stopped = v.stopped;
  once = v.once;
  rank = omega (arith, v.rank);
  over = v.over;
}

pub stop_rank-le : (p : WritePhase) → stop_rank p ≤ 4
stop_rank-le selecting = omega arith
stop_rank-le (writing frame true) = omega arith
stop_rank-le (writing frame false) = omega arith
stop_rank-le write_returns = omega arith
stop_rank-le write_ended = omega arith

pub ended_of_stop_rank : (p : WritePhase) → stop_rank p ≤ 0 → p ≡ write_ended
ended_of_stop_rank selecting h = absurd (omega arith)
ended_of_stop_rank (writing frame true) h = absurd (omega arith)
ended_of_stop_rank (writing frame false) h = absurd (omega arith)
ended_of_stop_rank write_returns h = absurd (omega arith)
ended_of_stop_rank write_ended h = refl
