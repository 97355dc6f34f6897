-- ===== src/Ws/Pumps/Invariant.antt =====
-- ws/server.go, `readPump` and `writePump`: what holds of the state that the goroutines of a
-- connection share, and that the steps keep it that do not ask the socket.
use go_wst.Prelude.{
  ℕ, suc, ◌≡◌, refl, sym, ap, ◌∙◌, ◌⊎◌, inl, inr, List, [], ◌∷◌, ◌++◌, Option, none, some, Bool,
  true, false, if◌then◌else◌, length, Bool-cases,
}
use mathlib.Core.List.{append-nil, append_assoc}
use go_wst.Protocol.Message.{Bytes}
use go_wst.Ws.Connection.{
  Connection, Frame, text_message, ping_message, close_message, close_normal_closure, write_message,
}
use go_wst.Ws.Connection.Laws.{closed}
use go_wst.Ws.Pumps.{
  ReadPhase, reading, WritePhase, selecting, writing, write_returns, write_ended, Session, Case,
  server_stops, connection_closed, message_waits, ticker_fires, take_message, stop_frame,
  select_case, text_of, after_write, read_answer,
}

-- The messages among the frames on the wire.
abbrev pub texts : List Frame → List Bytes
texts [] = []
texts (text_message msg ∷ frames) = msg ∷ texts frames
texts (ping_message ∷ frames) = texts frames
texts (close_message code reason ∷ frames) = texts frames

texts-append : (xs : List Frame) (f : Frame) → texts (xs ++ f ∷ []) ≡ texts xs ++ text_of f
texts-append [] (text_message msg) = refl
texts-append [] ping_message = refl
texts-append [] (close_message code reason) = refl
texts-append (text_message msg ∷ xs) f = ap (λ t. msg ∷ t) (texts-append xs f)
texts-append (ping_message ∷ xs) f = texts-append xs f
texts-append (close_message code reason ∷ xs) f = texts-append xs f

-- The message that the write pump holds between the channel and the socket.
abbrev pub in_flight : WritePhase → List Bytes
in_flight (writing frame last) = text_of frame
in_flight _ = []

-- The write pump has left its loop.
abbrev pub is_over : WritePhase → Bool
is_over write_returns = true
is_over write_ended = true
is_over _ = false

-- How often `OnDisconnect` has been called at a phase of the read pump.
abbrev pub notices : ReadPhase → ℕ
notices reading = 0
notices _ = 1

-- The messages are on the wire, dropped, in flight or in the channel, in the order in which they
-- were accepted.
pub record IsSession (s : Session) : Type 0 where
  pub once : s.conn.done ≡ s.conn.once
  pub order :
      s.accepted ≡ texts s.conn.wire ++ (s.dropped ++ (in_flight s.writer ++ s.conn.send_buffer))
  pub kept : (s.dropped ≡ []) ⊎ ((is_over s.writer ≡ true) × (length s.dropped ≡ 1))
  pub noticed : s.disconnects ≡ notices s.reader

-- Closing writes no message and keeps the channel.
pub closed-texts :
    (fails : Bool) (c : Connection)
    → (texts (closed fails c).wire ≡ texts c.wire)
      × ((closed fails c).send_buffer ≡ c.send_buffer)
      × (c.done ≡ c.once → (closed fails c).done ≡ (closed fails c).once)
unfolding closed write_message
closed-texts fails c = elim (Bool-cases c.once) [
  | inl e ↦ rw e (refl, refl, λ h. h)
  | inr e ↦ elim (Bool-cases fails) [
    | inl f ↦ rw (e, f) (refl, refl, λ h. refl)
    | inr f ↦
        rw (e, f)
          (
            texts-append c.wire (close_message close_normal_closure "") ∙ append-nil (texts c.wire),
            refl,
            λ h. refl,
          )
  ]
]

-- While the pump is in its loop no message is dropped.
none_dropped : (s : Session) → is_over s.writer ≡ false → IsSession s → s.dropped ≡ []
none_dropped s e v = elim v.kept [ inl none_lost ↦ none_lost | inr lost ↦ absurd (cc) ]

pub read_answer-IsSession :
    (answer : Option Bytes) (s : Session)
    → s.reader ≡ reading
    → IsSession s
    → IsSession (read_answer answer s)
unfolding read_answer
read_answer-IsSession none s e v = record {
  once = v.once;
  order = v.order;
  kept = v.kept;
  noticed = ap suc (v.noticed ∙ ap notices e);
}
read_answer-IsSession (some msg) s e v = record {
  once = v.once;
  order = v.order;
  kept = v.kept;
  noticed = v.noticed;
}

-- From the `select` the pump goes to a phase that holds no message.
moved-IsSession :
    (q : WritePhase) (s : Session)
    → in_flight q ≡ []
    → s.writer ≡ selecting
    → IsSession s
    → IsSession (record s { writer = q })
moved-IsSession q s empty e v = record {
  once = v.once;
  order = rw empty (rw e at v.order);
  kept = inl (none_dropped s (ap is_over e) v);
  noticed = v.noticed;
}

take_message-IsSession :
    (buffer : List Bytes) (s : Session)
    → s.conn.send_buffer ≡ buffer
    → s.writer ≡ selecting
    → IsSession s
    → IsSession (take_message buffer s)
unfolding take_message
take_message-IsSession [] s b e v = v
take_message-IsSession (msg ∷ rest) s b e v = record {
  once = v.once;
  order = rw (e, b) at v.order;
  kept = inl (none_dropped s (ap is_over e) v);
  noticed = v.noticed;
}

first_of {ℓ κ} :
    {A : Type ℓ} (P : A → Type κ) (a b : Bool) {x y z : A}
    → P x
    → P y
    → P z
    → P (if a then x else if b then y else z)
first_of P true b p q r = p
first_of P false true p q r = q
first_of P false false p q r = r

message_waits-IsSession :
    (buffer : List Bytes) (s : Session)
    → s.conn.send_buffer ≡ buffer
    → s.writer ≡ selecting
    → IsSession s
    → IsSession (elim buffer [
      | msg ∷ rest ↦ take_message (msg ∷ rest) s
      | [] ↦
          if s.conn.done
          then record s { writer = write_returns }
          else if s.server_done
          then stop_frame s
          else s
    ])
unfolding stop_frame
message_waits-IsSession [] s b e v =
    first_of IsSession s.conn.done s.server_done (moved-IsSession write_returns s refl e v)
      (moved-IsSession (writing (close_message close_normal_closure "") true) s refl e v) v
message_waits-IsSession (msg ∷ rest) s b e v = take_message-IsSession (msg ∷ rest) s b e v

pub select_case-IsSession :
    (wish : Case) (s : Session)
    → s.writer ≡ selecting
    → IsSession s
    → IsSession (select_case wish s)
unfolding select_case stop_frame
select_case-IsSession server_stops s e v =
    first_of IsSession s.server_done s.conn.done
      (moved-IsSession (writing (close_message close_normal_closure "") true) s refl e v)
      (moved-IsSession write_returns s refl e v)
      (take_message-IsSession s.conn.send_buffer s refl e v)
select_case-IsSession connection_closed s e v =
    first_of IsSession s.conn.done s.server_done (moved-IsSession write_returns s refl e v)
      (moved-IsSession (writing (close_message close_normal_closure "") true) s refl e v)
      (take_message-IsSession s.conn.send_buffer s refl e v)
select_case-IsSession message_waits s e v = message_waits-IsSession s.conn.send_buffer s refl e v
select_case-IsSession ticker_fires s e v = moved-IsSession (writing ping_message false) s refl e v

text_of-short : (frame : Frame) → (text_of frame ≡ []) ⊎ (length (text_of frame) ≡ 1)
text_of-short (text_message msg) = inr refl
text_of-short ping_message = inl refl
text_of-short (close_message code reason) = inl refl

not_in_flight : (last : Bool) → in_flight (if last then write_returns else selecting) ≡ []
not_in_flight true = refl
not_in_flight false = refl

pub after_write-IsSession :
    (fails : Bool) (frame : Frame) (last : Bool) (s : Session)
    → s.writer ≡ writing frame last
    → IsSession s
    → IsSession (after_write frame last s (write_message fails frame s.conn))
unfolding after_write write_message
after_write-IsSession true frame last s e v =
    let clean : s.dropped ≡ [] = none_dropped s (ap is_over e) v in
    record {
      once = v.once;
      order = rw clean (rw (clean, e) at v.order);
      kept = rw clean (elim (text_of-short frame) [
        | inl none_lost ↦ inl none_lost
        | inr lost ↦ inr (refl, lost)
      ]);
      noticed = v.noticed;
    }
after_write-IsSession false frame last s e v =
    let clean : s.dropped ≡ [] = none_dropped s (ap is_over e) v in
    record {
      once = v.once;
      order =
          rw (not_in_flight last, texts-append s.conn.wire frame, clean)
            ((rw (clean, e) at v.order)
              ∙ sym (append_assoc (texts s.conn.wire) (text_of frame) s.conn.send_buffer));
      kept = inl clean;
      noticed = v.noticed;
    }
