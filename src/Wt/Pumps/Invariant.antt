-- ===== src/Wt/Pumps/Invariant.antt =====
-- wt/server.go, `handleStream` and `writePump`: what holds of the state that the goroutines of a
-- connection share, and that the steps on the channel and of the write pump keep it.
use go_wst.Prelude.{
  ℕ, ◌≡◌, refl, sym, ap, ◌∙◌, ◌⊎◌, ◌≢◌, inl, inr, List, [], ◌∷◌, ◌++◌, Option, none, some, Bool,
  true, false, if◌then◌else◌, ◌||◌, ◌&&◌, length, arith, map, All, All-append,
}
use mathlib.Core.List.{append_assoc, map-append}
use go_wst.Protocol.Message.{Bytes}
use go_wst.Wt.Connection.Laws.{IsConnection}
use go_wst.Wt.Pumps.{
  StreamPhase, checking, stream_ended, WritePhase, unready, selecting, writing, write_ended,
  Session, Case, server_stops, connection_closed, message_waits, to_reader, take_message,
  select_case, select_ready, write_message, read_answer,
}

-- The messages on the wire, in the order in which they were written.
abbrev pub sent : List (ℕ × Bytes) → List Bytes
sent wire = map (λ e. e.1) wire

-- The message that the write pump holds between the channel and the stream.
abbrev pub in_hand : WritePhase → List Bytes
in_hand (writing msg) = msg ∷ []
in_hand _ = []

abbrev pub is_over : WritePhase → Bool
is_over write_ended = true
is_over _ = false

-- The messages are on the wire, dropped, in hand or in the channel, in the order in which they were
-- accepted, and all that is on the wire is on the response stream.
pub record IsSession (s : Session) : Type 0 where
  pub valid : IsConnection s.conn
  pub order : s.accepted ≡ sent s.wire ++ (s.dropped ++ (in_hand s.writer ++ s.conn.send_buffer))
  pub kept : (s.dropped ≡ []) ⊎ ((is_over s.writer ≡ true) × (length s.dropped ≡ 1))
  pub on_stream : All (λ e. s.conn.response_stream ≡ some e.0) s.wire

none_dropped : (s : Session) → is_over s.writer ≡ false → IsSession s → s.dropped ≡ []
none_dropped s e v = elim v.kept [ inl none_lost ↦ none_lost | inr lost ↦ absurd (cc) ]

-- What the readers do to their own places.
pub to_reader-IsSession :
    (j : ℕ) (p : StreamPhase) (s : Session) → IsSession s → IsSession (to_reader j p s)
unfolding to_reader
to_reader-IsSession j p s v = record {
  valid = v.valid;
  order = v.order;
  kept = v.kept;
  on_stream = v.on_stream;
}

pub read_answer-IsSession :
    (j : ℕ) (answer : Option Bytes) (s : Session) → IsSession s → IsSession (read_answer j answer s)
unfolding read_answer
read_answer-IsSession j none s v = to_reader-IsSession j stream_ended s v
read_answer-IsSession j (some msg) s v =
    let v' : IsSession (to_reader j checking s) = to_reader-IsSession j checking s v in
    record { valid = v'.valid; order = v'.order; kept = v'.kept; on_stream = v'.on_stream }

-- From a phase with no message in hand the pump goes to another one.
moved-IsSession :
    (p q : WritePhase) (s : Session)
    → in_hand p ≡ []
    → is_over p ≡ false
    → in_hand q ≡ []
    → s.writer ≡ p
    → IsSession s
    → IsSession (record s { writer = q })
moved-IsSession p q s free loops empty e v = record {
  valid = v.valid;
  order = rw empty (rw (e, free) at v.order);
  kept = inl (none_dropped s (ap is_over e ∙ loops) v);
  on_stream = v.on_stream;
}

pub apart_of_none {ℓ} : {A : Type ℓ} {a : A} → none ≢ some a
apart_of_none h = cc

take_message-IsSession :
    (buffer : List Bytes) (s : Session)
    → s.conn.send_buffer ≡ buffer
    → s.writer ≡ selecting
    → IsSession s
    → IsSession (take_message buffer s)
unfolding take_message
take_message-IsSession [] s b e v = v
take_message-IsSession (msg ∷ rest) s b e v = record {
  valid = record {
    closed_once = v.valid.closed_once;
    ready_once = v.valid.ready_once;
    bounded = ground (arith, v.valid.bounded, ap length b);
  };
  order = rw (e, b) at v.order;
  kept = inl (none_dropped s (ap is_over e) v);
  on_stream = v.on_stream;
}

either {ℓ κ} :
    {A : Type ℓ} (P : A → Type κ) (b : Bool) {x y : A} → P x → P y → P (if b then x else y)
either P true p q = p
either P false p q = q

message_waits-IsSession :
    (buffer : List Bytes) (s : Session)
    → s.conn.send_buffer ≡ buffer
    → s.writer ≡ selecting
    → IsSession s
    → IsSession (elim buffer [
      | msg ∷ rest ↦ take_message (msg ∷ rest) s
      | [] ↦ if s.server_done || s.conn.done then record s { writer = write_ended } else s
    ])
message_waits-IsSession [] s b e v =
    either IsSession (s.server_done || s.conn.done)
      (moved-IsSession selecting write_ended s refl refl refl e v) v
message_waits-IsSession (msg ∷ rest) s b e v = take_message-IsSession (msg ∷ rest) s b e v

pub select_case-IsSession :
    (wish : Case) (s : Session)
    → s.writer ≡ selecting
    → IsSession s
    → IsSession (select_case wish s)
unfolding select_case
select_case-IsSession message_waits s e v = message_waits-IsSession s.conn.send_buffer s refl e v
select_case-IsSession server_stops s e v =
    either IsSession (s.server_done || s.conn.done)
      (moved-IsSession selecting write_ended s refl refl refl e v)
      (take_message-IsSession s.conn.send_buffer s refl e v)
select_case-IsSession connection_closed s e v =
    either IsSession (s.server_done || s.conn.done)
      (moved-IsSession selecting write_ended s refl refl refl e v)
      (take_message-IsSession s.conn.send_buffer s refl e v)

pub select_ready-IsSession :
    (ends : Bool) (s : Session) → s.writer ≡ unready → IsSession s → IsSession (select_ready ends s)
unfolding select_ready
select_ready-IsSession ends s e v =
    either IsSession s.conn.stream_ready
      (either IsSession (ends && (s.server_done || s.conn.done))
        (moved-IsSession unready write_ended s refl refl refl e v)
        (moved-IsSession unready selecting s refl refl refl e v))
      (either IsSession (s.server_done || s.conn.done)
        (moved-IsSession unready write_ended s refl refl refl e v) v)

-- The message in hand is lost, and the pump is over.
lost-IsSession :
    (msg : Bytes) (s : Session)
    → s.writer ≡ writing msg
    → IsSession s
    → IsSession (record s { writer = write_ended; dropped = s.dropped ++ msg ∷ [] })
lost-IsSession msg s e v =
    let clean : s.dropped ≡ [] = none_dropped s (ap is_over e) v in
    record {
      valid = v.valid;
      order = rw clean (rw (clean, e) at v.order);
      kept = inr (refl, ap (λ (d : List Bytes). length (d ++ msg ∷ [])) clean);
      on_stream = v.on_stream;
    }

pub write_message-IsSession :
    (fails : Bool) (msg : Bytes) (stream : Option ℕ) (s : Session)
    → s.conn.response_stream ≡ stream
    → s.writer ≡ writing msg
    → IsSession s
    → IsSession (write_message fails msg stream s)
unfolding write_message
write_message-IsSession fails msg none s r e v = lost-IsSession msg s e v
write_message-IsSession true msg (some stream) s r e v = lost-IsSession msg s e v
write_message-IsSession false msg (some stream) s r e v =
    let clean : s.dropped ≡ [] = none_dropped s (ap is_over e) v in
    record {
      valid = v.valid;
      order =
          rw (clean, map-append (λ (w : ℕ × Bytes). w.1) s.wire ((stream, msg) ∷ []))
            ((rw (clean, e) at v.order)
              ∙ sym (append_assoc (sent s.wire) (msg ∷ []) s.conn.send_buffer));
      kept = inl clean;
      on_stream = All-append _ s.wire ((stream, msg) ∷ []) v.on_stream (r, tt);
    }
