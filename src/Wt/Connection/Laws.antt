-- ===== src/Wt/Connection/Laws.antt =====
-- wt/connection.go: what holds of a connection whatever calls are made on it.
use go_wst.Prelude.{
  ℕ, ◌≤◌, ◌≡◌, inl, inr, refl, String, str_eq, List, [], ◌∷◌, Option, none, some, Bool, true, false,
  if◌then◌else◌, ltb, length, length-append, arith, Bool-cases, Option-cases,
}
use go_wst.Prelude.Int.{ℤ}
use go_wst.Prelude.Go.{Go, returns, ◌>>=◌}
use go_wst.Protocol.Message.{Bytes}
use go_wst.Protocol.Value.{Any}
use go_wst.Prelude.Dict.{Distinct, lookup}
use go_wst.Protocol.Metadata.{copy_entries-insert}
use go_wst.Wt.Connection.{
  user_id, metadata, set_metadata, Connection, Choice, new_connection, context_done,
  connection_done, buffered, set_user_id, ready, send, close, close_with_error, set_response_stream,
}

abbrev pub has_stream : Option ℕ → Bool
has_stream none = false
has_stream (some n) = true

-- Each channel is closed together with the field that guards it.
pub record IsConnection (c : Connection) : Type 0 where
  pub closed_once : c.done ≡ c.once
  pub ready_once : c.stream_ready ≡ has_stream c.response_stream
  pub bounded : length c.send_buffer ≤ 256

pub data Call : Type 0 where
  sets_user_id : String → Call
  sends : Bool → Choice → Bytes → Call
  sets_stream : ℕ → Call
  closes : Option String → Call
  closes_with_error : Option String → String → Call

unfoldable pub apply : Call → Connection → Go Connection
apply (sets_user_id u) c = returns (set_user_id u c)
apply (sends cancelled choice msg) c =
    if ready cancelled c choice then returns (send choice msg c).0 else returns c
apply (sets_stream stream) c = set_response_stream stream c
apply (closes e) c = do (c', _) ← close e c; returns c'
apply (closes_with_error e e') c = do (c', _) ← close_with_error e e' c; returns c'

unfoldable pub run : List Call → Connection → Go Connection
run [] c = returns c
run (call ∷ calls) c = do c' ← apply call c; run calls c'

close-IsConnection :
    (e : Option String) (c : Connection)
    → IsConnection c
    → (r : Connection × Option String) × (close e c ≡ returns r)
      × IsConnection r.0
      × (r.0.done ≡ true)
      × (r.0.response_stream ≡ c.response_stream)
unfolding close
close-IsConnection e c v = elim (Bool-cases c.once) [
  | inl again ↦ ((c, none), ground arith, v, ground arith, refl)
  | inr first ↦ (
    (record c { once = true; done = true }, e),
    ground arith,
    record { closed_once = refl; ready_once = v.ready_once; bounded = v.bounded },
    refl,
    refl,
  )
]

-- Only the first stream is ever kept, and setting one never panics.
set_response_stream-IsConnection :
    (stream : ℕ) (c : Connection)
    → IsConnection c
    → (c' : Connection) × (set_response_stream stream c ≡ returns c')
      × IsConnection c'
      × (c'.stream_ready ≡ true)
      × ((kept : ℕ) → c.response_stream ≡ some kept → c'.response_stream ≡ some kept)
unfolding set_response_stream
set_response_stream-IsConnection stream c v = elim (Option-cases c.response_stream) [
  | inl e ↦ (
    record c { response_stream = some stream; stream_ready = true },
    ground arith,
    record { closed_once = v.closed_once; ready_once = refl; bounded = v.bounded },
    refl,
    (λ kept h. absurd (cc)),
  )
  | inr (old, e) ↦ (c, ground arith, v, ground arith, (λ kept h. h))
]

apply-IsConnection :
    (call : Call) (c : Connection)
    → IsConnection c
    → (c' : Connection) × (apply call c ≡ returns c')
      × IsConnection c'
      × ((kept : ℕ) → c.response_stream ≡ some kept → c'.response_stream ≡ some kept)
unfolding apply set_user_id send ready close_with_error
apply-IsConnection (sets_user_id u) c v = (
  _,
  refl,
  record { closed_once = v.closed_once; ready_once = v.ready_once; bounded = v.bounded },
  (λ kept h. h),
)
apply-IsConnection (sends cancelled context_done msg) c v = (c, ground arith, v, λ kept h. h)
apply-IsConnection (sends cancelled connection_done msg) c v = (c, ground arith, v, λ kept h. h)
apply-IsConnection (sends cancelled buffered msg) c v =
    elim (Bool-cases (ltb (length c.send_buffer) 256)) [
      | inl room ↦ (
        (send buffered msg c).0,
        rw room,
        record {
          closed_once = v.closed_once;
          ready_once = v.ready_once;
          bounded = ground (arith, length-append c.send_buffer (msg ∷ []));
        },
        (λ kept h. h),
      )
      | inr full ↦ (c, rw full, v, λ kept h. h)
    ]
apply-IsConnection (sets_stream stream) c v =
    let (c', done, v', _, keep) = set_response_stream-IsConnection stream c v in
    (c', done, v', keep)
apply-IsConnection (closes e) c v =
    let (r, done, v', _, same) = close-IsConnection e c v in
    (r.0, rw done, v', λ kept h. ground (arith, same, h))
apply-IsConnection (closes_with_error e e') c v =
    let c' : Connection = record c { close_err = some e' } in
    let v' : IsConnection c' = record {
      closed_once = v.closed_once;
      ready_once = v.ready_once;
      bounded = v.bounded;
    } in
    let (r, done, v'', _, same) = close-IsConnection e c' v' in
    (r.0, rw done, v'', λ kept h. ground (arith, same, h))

run-IsConnection :
    (calls : List Call) (c : Connection)
    → IsConnection c
    → (c' : Connection) × (run calls c ≡ returns c')
      × IsConnection c'
      × ((kept : ℕ) → c.response_stream ≡ some kept → c'.response_stream ≡ some kept)
unfolding run
run-IsConnection [] c v = (c, refl, v, λ kept h. h)
run-IsConnection (call ∷ calls) c v =
    let (c', done, v', keep) = apply-IsConnection call c v in
    let (c'', rest, v'', keep') = run-IsConnection calls c' v' in
    (c'', rw done rest, v'', λ kept h. keep' kept (keep kept h))

-- Whatever calls follow the first `SetResponseStream` on a valid connection, no channel is closed
-- twice, so none panics; the send buffer keeps its bound, and the first response stream stays the
-- response stream.
run-first_stream :
    (calls : List Call) (c : Connection) (stream : ℕ)
    → IsConnection c
    → c.response_stream ≡ none
    → (c' : Connection) × (run (sets_stream stream ∷ calls) c ≡ returns c')
      × (length c'.send_buffer ≤ 256)
      × (c'.response_stream ≡ some stream)
      × (c'.stream_ready ≡ true)
unfolding run apply set_response_stream
run-first_stream calls c stream v e =
    let c₁ : Connection = record c { response_stream = some stream; stream_ready = true } in
    let v₁ : IsConnection c₁ = record {
      closed_once = v.closed_once;
      ready_once = refl;
      bounded = v.bounded;
    } in
    let (c', done, v', keep) = run-IsConnection calls c₁ v₁ in
    (
      c',
      ground (arith, done),
      v'.bounded,
      keep stream refl,
      ground (arith, keep stream refl, v'.ready_once),
    )

pub new_connection-IsConnection :
    (id : String) (write_timeout : ℤ) → IsConnection (new_connection id write_timeout)
unfolding new_connection
new_connection-IsConnection id write_timeout = record {
  closed_once = refl;
  ready_once = refl;
  bounded = omega arith;
}

-- The copy that `Metadata` returns holds what was set last under each key.
pub metadata-set_metadata :
    (k j : String) (v : Any) (c : Connection)
    → Distinct c.metadata_map
    → lookup j (metadata (set_metadata k v c))
      ≡ (if str_eq k j then some v else lookup j (metadata c))
unfolding metadata set_metadata
metadata-set_metadata k j v c h = copy_entries-insert k j v c.metadata_map h

pub close-id :
    (e : Option String) (c : Connection) (r : Connection × Option String)
    → close e c ≡ returns r
    → (r.0.id ≡ c.id) × (user_id r.0 ≡ user_id c)
unfolding close user_id
close-id e c r h = ground arith

-- Where the channel `done` is closed together with `once`, `Close` does not panic, and it is closed
-- afterwards.
pub close-done :
    (e : Option String) (c : Connection)
    → c.done ≡ c.once
    → (r : Connection × Option String) × (close e c ≡ returns r)
      × (r.0.done ≡ true)
      × (r.0.once ≡ true)
unfolding close
close-done e c v = elim (Bool-cases c.once) [
  | inl again ↦ ((c, none), ground arith, ground arith, again)
  | inr first ↦ ((record c { once = true; done = true }, e), ground arith, refl, refl)
]
