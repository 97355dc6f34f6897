-- ===== src/Stateful/Heartbeat/Loop.antt =====
-- stateful/heartbeat.go, `Start`: the loop that checks at every tick, with the calls of
-- `UpdateActivity` that come in between. The hub does not change meanwhile.
use go_wst.Prelude.{
  ℕ, ◌≡◌, refl, ◌∙◌, String, List, [], ◌∷◌, Option, some, Bool, false, none, ◌||◌, if◌then◌else◌,
  ◌==◌, arith,
}
use go_wst.Prelude.Int.{ℤ, ◌+ℤ◌, ltb_ℤ, -ℤ_parts, +ℤ_parts}
use go_wst.Prelude.Go.{returns}
use go_wst.Stateful.Hub.Defs.{get}
use go_wst.Stateful.Hub.Invariant.{IsHub}
use go_wst.Stateful.Heartbeat.{
  Watch, HeartbeatManager, check_connections, update_activity, timed_out, check_connections_held,
}

-- A tick at a time, activity of a connection at a time, or the end of the context.
pub data Event : Type 0 where
  ticks : ℤ → Event
  active : ℤ → ℕ → Event
  cancelled : Event

unfoldable pub start : HeartbeatManager → List Event → Watch → Watch
unfolding check_connections update_activity
start m [] w = w
start m (ticks now ∷ events) w = start m events (check_connections m now w)
start m (active now conn ∷ events) w = start m events (update_activity now conn w)
start m (cancelled ∷ events) w = w

-- Whether the timeout, counted from the last activity where one is known, has passed before `now`.
unfoldable pub idle_longer : ℤ → ℤ → Option ℤ → Bool
unfolding ◌+ℤ◌
idle_longer now timeout none = false
idle_longer now timeout (some last) = ltb_ℤ (last +ℤ timeout) now

timed_out-idle_longer :
    (now timeout : ℤ) (last : Option ℤ) → timed_out now timeout last ≡ idle_longer now timeout last
unfolding timed_out idle_longer
timed_out-idle_longer now timeout none = refl
timed_out-idle_longer now timeout (some last) =
    ground (arith, -ℤ_parts now last, +ℤ_parts last timeout)

-- Whether the connection is idle for longer than the timeout at one of the ticks before the end,
-- where `last` is its last activity so far.
unfoldable pub expires : ℤ → ℕ → Option ℤ → List Event → Bool
unfolding idle_longer
expires timeout c last [] = false
expires timeout c last (ticks now ∷ events) =
    idle_longer now timeout last || expires timeout c last events
expires timeout c last (active now conn ∷ events) =
    expires timeout c (if c == conn then some now else last) events
expires timeout c last (cancelled ∷ events) = false

-- Of the connections that a valid hub holds, the loop closes just those that are idle for longer than
-- the timeout at a tick before the context ends, counted from their last activity, where one is
-- known; none is opened again.
pub start-expires :
    (id : ℕ → String) (m : HeartbeatManager) (c : ℕ) (j : String) (events : List Event) (w : Watch)
    → IsHub id m.hub
    → get m.hub j ≡ returns (some c)
    → (start m events w).closed c ≡ (w.closed c || expires m.timeout c (w.last_activity c) events)
unfolding start expires update_activity
start-expires id m c j [] w v held = ground arith
start-expires id m c j (ticks now ∷ events) w v held =
    let (closed, last) = check_connections_held id m now w c j v held in
    start-expires id m c j events (check_connections m now w) v held
    ∙ rw (closed, last, timed_out-idle_longer now m.timeout (w.last_activity c)) (ground arith)
start-expires id m c j (active now conn ∷ events) w v held =
    start-expires id m c j events (update_activity now conn w) v held
start-expires id m c j (cancelled ∷ events) w v held = ground arith
