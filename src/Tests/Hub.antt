-- ===== src/Tests/Hub.antt =====
-- stateful/hub.go, stateful/heartbeat.go: the theorems at concrete inputs.
use go_wst.Prelude.{
  ℕ, ◌^◌, ◌≤◌, ◌≡◌, String, str_eq, List, [], ◌∷◌, none, some, false, ◌&&◌, ◌||◌, not,
  if◌then◌else◌, ◌==◌, arith,
}
use go_wst.Prelude.Int.{pos}
use go_wst.Prelude.Go.{returns}
use go_wst.Stateful.PowerOf2.{next_power_of2, next_power_of2-least}
use go_wst.Stateful.Hub.Defs.{Hub, new_hub, register, unregister, bind_user, get}
use go_wst.Stateful.Hub.Invariant.{IsHub, new_hub-IsHub}
use go_wst.Stateful.Hub.Lookup.{get_bound, register_lem, unregister_lem, bind_user_lem}
use go_wst.Stateful.Hub.Refinement
use go_wst.Stateful.Hub.Refinement.{
  Call, registers, unregisters, binds, Implements, replay, empty_view, run-new_hub,
}
use go_wst.Stateful.Heartbeat.Loop.{Event, ticks, active, cancelled, start, expires, start-expires}
use go_wst.Stateful.Heartbeat.{Watch, HeartbeatManager, new_heartbeat_manager}

abbrev names : ℕ → String
names c = if c == 0 then "a" else if c == 1 then "b" else "c"

abbrev hub : Hub
hub = new_hub (pos 3)

hub-IsHub : IsHub names hub
hub-IsHub = new_hub-IsHub names (pos 3) (omega arith)

-- A hub that holds connection 1.
abbrev bound_hub : Hub
bound_hub = (register_lem names hub 1 hub-IsHub).0

bound_hub-IsHub : IsHub names bound_hub
bound_hub-IsHub = (register_lem names hub 1 hub-IsHub).2

next_power_of2-least_example :
    (k : ℕ) × (next_power_of2 100 ≡ 2 ^ k)
    × (100 ≤ next_power_of2 100)
    × ((j : ℕ) → 100 ≤ 2 ^ j → next_power_of2 100 ≤ 2 ^ j)
next_power_of2-least_example = next_power_of2-least 100 (omega arith) (omega arith)

register_lem_example :
    (h' : Hub) × (register names hub 1 ≡ returns h')
    × IsHub names h'
    × ((j : String) → get h' j ≡ (if str_eq "b" j then returns (some 1) else get hub j))
    × ((u j : String) → get_bound h' u j ≡ get_bound hub u j)
register_lem_example = register_lem names hub 1 hub-IsHub

unregister_lem_example :
    (h' : Hub) × (unregister names bound_hub "u" 1 ≡ returns h')
    × IsHub names h'
    × ((j : String) → get h' j ≡ (if str_eq "b" j then returns none else get bound_hub j))
    × ((u j : String)
        → get_bound h' u j ≡ (
            if not (str_eq "u" "") && (str_eq "u" u && str_eq "b" j)
            then returns none
            else get_bound bound_hub u j))
unregister_lem_example = unregister_lem names bound_hub "u" 1 bound_hub-IsHub

bind_user_lem_example :
    (h' : Hub) × (users' : ℕ → String) × (bind_user names bound_hub (λ _. "") 1 "u"
      ≡ returns (h', users'))
    × IsHub names h'
    × ((c : ℕ) → users' c ≡ (if c == 1 then "u" else ""))
    × ((j : String) → get h' j ≡ get bound_hub j)
    × ((u j : String)
        → get_bound h' u j
          ≡ (if str_eq "u" u && str_eq "b" j then returns (some 1) else get_bound bound_hub u j))
bind_user_lem_example = bind_user_lem names bound_hub (λ _. "") 1 "u" bound_hub-IsHub

listed : get bound_hub "b" ≡ returns (some 1)
listed = (register_lem names hub 1 hub-IsHub).3 "b"

abbrev manager : HeartbeatManager
manager = new_heartbeat_manager bound_hub (pos 30) (pos 60)

abbrev watch : Watch
watch = record { last_activity = λ c. some (pos 5); closed = λ c. false }

-- The connection is active once more, and idle at the second tick.
abbrev beats : List Event
beats = active (pos 6) 1 ∷ ticks (pos 50) ∷ ticks (pos 100) ∷ cancelled ∷ ticks (pos 900) ∷ []

start-expires_example :
    (start manager beats watch).closed 1
    ≡ (watch.closed 1 || expires manager.timeout 1 (watch.last_activity 1) beats)
start-expires_example = start-expires names manager 1 "b" beats watch bound_hub-IsHub listed

-- Two connections come, the first is bound and goes again.
abbrev history : List Call
history = registers 0 ∷ registers 1 ∷ binds 0 "alice" ∷ unregisters 0 ∷ []

run-new_hub_example :
    (r : Hub × (ℕ → String)) × (Refinement.run names history (new_hub (pos 3)) (λ c. "")
      ≡ returns r)
    × Implements names (replay names history (empty_view (λ c. ""))) r.0 r.1
run-new_hub_example = run-new_hub names (pos 3) (λ c. "") history (omega arith)
