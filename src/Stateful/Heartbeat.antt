-- ===== src/Stateful/Heartbeat.antt =====
-- stateful/heartbeat.go: the check that closes connections without recent activity, and
-- stateful/hub.go, `AtomicCounter`.
pub mod Loop
use go_wst.Prelude.{
  ◌≢◌, ℕ, zero, suc, ◌≡◌, refl, String, List, [], ◌∷◌, Option, none, some, Bool, true, false, ◌&&◌,
  ◌||◌, if◌then◌else◌, ◌==◌, arith, inl, inr, In, Bool-cases,
}
use go_wst.Prelude.Int.{ℤ, pos, negsuc, ltb_ℤ, ◌-ℤ◌, ◌≤ℤ◌, inc64, dec64, IsInt64}
use go_wst.Prelude.Go.{returns}
use go_wst.Stateful.Hub.Invariant.{IsHub}
use go_wst.Stateful.Hub.Listing.{for_each_lem}
use go_wst.Stateful.Hub.Defs.{Hub, visit, for_each, get}

-- The metadata that the check reads: `meta["lastActivity"].(time.Time)` is a time, in nanoseconds,
-- or the entry is missing or of another type. `Close` marks a connection as closed.
pub record Watch : Type 0 where
  pub last_activity : ℕ → Option ℤ
  pub closed : ℕ → Bool

pub record HeartbeatManager : Type 0 where
  pub interval : ℤ
  pub timeout : ℤ
  pub hub : Hub

abbrev pub new_heartbeat_manager : Hub → ℤ → ℤ → HeartbeatManager
new_heartbeat_manager hub interval timeout = record {
  interval = interval;
  timeout = timeout;
  hub = hub;
}

unfoldable pub update_activity : ℤ → ℕ → Watch → Watch
update_activity now conn w = record w {
  last_activity = λ c. if c == conn then some now else w.last_activity c;
}

-- `now.Sub(lastActivity) > m.timeout`
unfoldable pub timed_out : ℤ → ℤ → Option ℤ → Bool
unfolding ◌-ℤ◌
timed_out now timeout none = false
timed_out now timeout (some last) = ltb_ℤ timeout (now -ℤ last)

close : ℕ → Watch → Watch
close conn w = record w { closed = λ c. c == conn || w.closed c }

-- The callback of the loop, which never ends it.
unfoldable pub check_connection : ℤ → ℤ → ℕ → Watch → Watch × Bool
unfolding close
check_connection now timeout conn w =
    if timed_out now timeout (w.last_activity conn) then (close conn w, true) else (w, true)

unfoldable pub check_connections : HeartbeatManager → ℤ → Watch → Watch
check_connections m now w = for_each (check_connection now m.timeout) m.hub w

is_in : ℕ → List ℕ → Bool
is_in c [] = false
is_in c (x ∷ cs) = c == x || is_in c cs

is_in_of_In : (c : ℕ) (cs : List ℕ) → In c cs → is_in c cs ≡ true
unfolding is_in
is_in_of_In c [] h = elim h [ ]
is_in_of_In c (x ∷ cs) (inl e) = ground arith
is_in_of_In c (x ∷ cs) (inr h) = ground (arith, is_in_of_In c cs h)

In-is_in : (c : ℕ) (cs : List ℕ) → is_in c cs ≡ true → In c cs
unfolding is_in
In-is_in c [] h = absurd (cc)
In-is_in c (x ∷ cs) h = elim (Bool-cases (c == x)) [
  | inl e ↦ inl (ground arith)
  | inr e ↦ inr (In-is_in c cs (ground arith))
]

visit-closed :
    (now timeout : ℤ) (cs : List ℕ) (w : Watch) (c : ℕ)
    → ((visit (check_connection now timeout) cs w).0.closed c
        ≡ (w.closed c || (is_in c cs && timed_out now timeout (w.last_activity c))))
      × ((visit (check_connection now timeout) cs w).0.last_activity ≡ w.last_activity)
unfolding visit is_in check_connection
visit-closed now timeout [] w c = (ground arith, refl)
visit-closed now timeout (x ∷ cs) w c =
    elim (Bool-cases (timed_out now timeout (w.last_activity x))) [
      | inl late ↦
          let (closed, last) = visit-closed now timeout cs (close x w) c in
          rw late (ground (arith, closed, late, Bool-cases (c == x)), last)
      | inr fresh ↦
          let (closed, last) = visit-closed now timeout cs w c in
          rw fresh (ground (arith, closed, fresh, Bool-cases (c == x)), last)
    ]

check_connections_lem :
    (id : ℕ → String) (m : HeartbeatManager) (now : ℤ) (w : Watch) (c : ℕ)
    → IsHub id m.hub
    → (((j : String) × (get m.hub j ≡ returns (some c)))
        → (check_connections m now w).closed c
          ≡ (w.closed c || timed_out now m.timeout (w.last_activity c)))
      × ((¬ ((j : String) × (get m.hub j ≡ returns (some c))))
          → (check_connections m now w).closed c ≡ w.closed c)
      × ((check_connections m now w).last_activity ≡ w.last_activity)
unfolding check_connections
check_connections_lem id m now w c v =
    let (cs, run, _, _, meets) = for_each_lem id (check_connection now m.timeout) m.hub w v in
    let (closed, last) = visit-closed now m.timeout cs w c in
    rw run (
      (λ held. ground (arith, closed, is_in_of_In c cs ((meets c).1 held))),
      (λ missing. elim (Bool-cases (is_in c cs)) [
        | inl e ↦ absurd (missing ((meets c).0 (In-is_in c cs e)))
        | inr e ↦ ground (arith, closed, e)
      ]),
      last,
    )

-- A check closes a connection that a valid hub holds exactly when its last activity is known and
-- longer ago than the timeout; it opens none, and leaves every activity time as it is.
pub check_connections_held :
    (id : ℕ → String) (m : HeartbeatManager) (now : ℤ) (w : Watch) (c : ℕ) (j : String)
    → IsHub id m.hub
    → get m.hub j ≡ returns (some c)
    → ((check_connections m now w).closed c
        ≡ (w.closed c || timed_out now m.timeout (w.last_activity c)))
      × ((check_connections m now w).last_activity ≡ w.last_activity)
check_connections_held id m now w c j v e =
    let (held, missing, last) = check_connections_lem id m now w c v in (held (j, e), last)

-- A check leaves a connection that a valid hub does not hold as it is.
pub check_connections_apart :
    (id : ℕ → String) (m : HeartbeatManager) (now : ℤ) (w : Watch) (c : ℕ)
    → IsHub id m.hub
    → ((j : String) → get m.hub j ≢ returns (some c))
    → (check_connections m now w).closed c ≡ w.closed c
check_connections_apart id m now w c v apart =
    let (held, missing, last) = check_connections_lem id m now w c v in
    missing (λ found. apart found.0 found.1)

-- An update of the activity keeps a connection through a check at any time up to the timeout later.
update_activity-timed_out :
    (timeout now later : ℤ) (conn : ℕ) (w : Watch)
    → (later -ℤ now) ≤ℤ timeout
    → timed_out later timeout ((update_activity now conn w).last_activity conn) ≡ false
unfolding update_activity timed_out
update_activity-timed_out timeout now later conn w h = ground arith

-- stateful/hub.go, `AtomicCounter`: each call is one atomic step on an `int64`.
unfoldable pub inc : ℤ → ℤ
inc c = inc64 c

unfoldable pub dec : ℤ → ℤ
dec c = dec64 c

-- The two steps undo one another, also where the counter wraps around.
pub dec-inc : (c : ℤ) → IsInt64 c → (dec (inc c) ≡ c) × (inc (dec c) ≡ c)
unfolding inc dec inc64 dec64
dec-inc (pos zero) h = ground arith
dec-inc (pos (suc n)) h = ground arith
dec-inc (negsuc zero) h = ground arith
dec-inc (negsuc (suc n)) h = ground arith
