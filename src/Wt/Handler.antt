-- ===== src/Wt/Handler.antt =====
-- wt/server.go, `handleWebTransport`: each request runs in its own goroutine, here a thread with a
-- number that is also the pointer of its connection. A step of a thread is the code between two
-- points at which another thread can come in; what the step depends on from outside is its input.
pub mod Count
pub mod Listed
pub mod Mirror
use go_wst.Prelude.{ℕ, String, str_eq, List, [], ◌∷◌, Bool, true, false, if◌then◌else◌, ◌==◌}
use go_wst.Prelude.Result.{Result, ok, err}
use go_wst.Wt.Connection.{new_connection, set_user_id}
use go_wst.Wt.Server.{
  Server, at_limit, add_count, drop_count, write_conn, register_listed, unregister_listed,
  unregister_bound, bind_user, close_conn,
}

-- `gone` is a request that ended before it was counted, `finished` one that ended after.
pub data Phase : Type 0 where
  waiting : Phase
  admitted : Phase
  opened : Phase
  allowed : Phase
  counted : Phase
  listed : Phase
  raised : Phase
  running : Phase
  closing : Phase
  unlisted : Phase
  unbound : Phase
  finished : Phase
  gone : Phase

-- What comes from outside: a request; whether `Upgrade` succeeds and the ID that
-- `generateConnID` makes; what the authenticator answers; whether `OnConnect` succeeds; a handler's
-- own call of `SetUserID` on the connection; the end of the loop that accepts streams; and, where
-- nothing does, `goes`.
pub data Input : Type 0 where
  requests : Input
  upgrades : Bool → String → Input
  authenticates : Result String String → Input
  connects : Bool → Input
  renames : String → Input
  streams_end : Input
  goes : Input

-- The block `if s.conf.Auth.Enabled`. A refusal closes the session and leaves the connection.
unfoldable pub authenticated : Bool → Result String String → ℕ → Server → Server × Phase
authenticated false r c s = (s, allowed)
authenticated true (err e) c s = (s, gone)
authenticated true (ok user) c s = (
  if str_eq user "" then s else bind_user c user (write_conn c (set_user_id user (s.conns c)) s),
  allowed,
)

-- The server and one thread. An input that the thread does not wait for changes nothing.
unfoldable pub step : ℕ → Input → Server → Phase → Server × Phase
unfolding authenticated
step c requests s waiting = if at_limit s then (s, gone) else (s, admitted)
step c (upgrades false conn_id) s admitted = (s, gone)
step c (upgrades true conn_id) s admitted =
    (write_conn c (new_connection conn_id s.write_timeout) s, opened)
step c (authenticates r) s opened = authenticated s.auth_enabled r c s
step c goes s allowed = (add_count s, counted)
step c goes s counted = (register_listed c s, listed)
step c goes s listed = (add_count s, raised)
step c (connects true) s raised = (s, running)
step c (connects false) s raised = (close_conn c s, closing)
step c (renames user) s running = (write_conn c (set_user_id user (s.conns c)) s, running)
step c streams_end s running = (s, closing)
step c goes s closing = (unregister_listed c s, unlisted)
step c goes s unlisted = (unregister_bound c s, unbound)
step c goes s unbound = (drop_count s, finished)
step c _ s p = (s, p)

pub record System : Type 0 where
  pub server : Server
  pub phase : ℕ → Phase

unfoldable pub advance : ℕ → Input → System → System
advance c i y =
    let (s, p) = step c i y.server (y.phase c) in
    record { server = s; phase = λ d. if d == c then p else y.phase d }

-- A schedule says which thread goes next, and on what input.
unfoldable pub run : List (ℕ × Input) → System → System
unfolding advance
run [] y = y
run ((c, i) ∷ rest) y = run rest (advance c i y)

abbrev pub start : Server → System
start s = record { server = s; phase = λ _. waiting }
