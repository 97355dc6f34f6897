-- ===== src/Ws/Server.antt =====
-- ws/server.go: the state of the server and the operations on its registries. Connections are
-- pointers into `conns`. Each part of an operation that stands under one mutex is one function;
-- `HandleWebSocket` is in Ws/Handler.antt.
pub mod Kept
pub mod Delivery
pub mod Interface
use go_wst.Prelude.{
  ℕ, String, str_eq, List, [], ◌∷◌, ◌++◌, Option, none, some, Bool, true, false, if◌then◌else◌,
  ◌==◌, ◌&&◌, not,
}
use go_wst.Prelude.Int.{ℤ, pos, inc64, dec64, ltb_ℤ, leb_ℤ}
use go_wst.Prelude.Dict.{Dict, lookup, insert, delete, size, values}
use go_wst.Registry.{UserIndex, bind, unbind, conns_of, listed_conns}
use go_wst.Protocol.Message.{Bytes}
use go_wst.Ws.Connection.{Connection, user_id, set_user_id, close, write_message, close_message}
use go_wst.Prelude.Go.{Go, returns, panics}

abbrev close_policy_violation : ℕ
close_policy_violation = 1008

-- The fields of `WsConf` that the handler reads, and the state of `Server`.
pub record Server : Type 0 where
  pub max_connections : ℤ
  pub auth_enabled : Bool
  pub write_timeout : ℤ
  -- Whether a write to the peer of a connection fails.
  pub write_fails : ℕ → Bool
  pub conns : ℕ → Connection
  pub connections : Dict ℕ
  pub user_conns : UserIndex
  pub conn_count : ℤ

-- `NewServer`: empty registries.
unfoldable pub new_server : ℤ → Bool → ℤ → (ℕ → Bool) → (ℕ → Connection) → Server
new_server max_connections auth_enabled write_timeout write_fails conns = record {
  max_connections = max_connections;
  auth_enabled = auth_enabled;
  write_timeout = write_timeout;
  write_fails = write_fails;
  conns = conns;
  connections = [];
  user_conns = [];
  conn_count = pos 0;
}

abbrev pub id_of : Server → ℕ → String
id_of s c = (s.conns c).id

abbrev pub user_of : Server → ℕ → String
user_of s c = user_id (s.conns c)

-- `s.conf.MaxConnections > 0 && s.connCount.Load() >= s.conf.MaxConnections`
unfoldable pub at_limit : Server → Bool
at_limit s = ltb_ℤ (pos 0) s.max_connections && leb_ℤ s.max_connections s.conn_count

unfoldable pub add_count : Server → Server
add_count s = record s { conn_count = inc64 s.conn_count }

unfoldable pub drop_count : Server → Server
drop_count s = record s { conn_count = dec64 s.conn_count }

unfoldable pub write_conn : ℕ → Connection → Server → Server
write_conn c v s = record s { conns = λ d. if d == c then v else s.conns d }

-- `conn.Close()` on a connection of the server. A panic would be a channel closed twice; it is a
-- step that changes nothing here.
unfoldable pub after_close : ℕ → Server → Go (Connection × Option String) → Server
after_close c s panics = s
after_close c s (returns r) = write_conn c r.0 s

unfoldable pub close_conn : ℕ → Server → Server
unfolding after_close
close_conn c s = after_close c s (close (s.write_fails c) none (s.conns c))

-- A refused connection gets a close frame of its own first.
unfoldable pub refuse_conn : ℕ → Server → Server
unfolding close_conn
refuse_conn c s =
    let frame = close_message close_policy_violation "authentication failed" in
    close_conn c (write_conn c (write_message (s.write_fails c) frame (s.conns c)).0 s)

unfoldable pub register_connection : ℕ → Server → Server
register_connection c s = record s { connections = insert (id_of s c) c s.connections }

-- The two locked parts of `unregisterConnection`; its last statement is `drop_count`.
unfoldable pub unregister_listed : ℕ → Server → Server
unregister_listed c s = record s { connections = delete (id_of s c) s.connections }

unfoldable pub unregister_bound : ℕ → Server → Server
unregister_bound c s =
    if str_eq (user_of s c) ""
    then s
    else record s { user_conns = unbind (user_of s c) (id_of s c) s.user_conns }

unfoldable pub unregister_connection : ℕ → Server → Server
unfolding unregister_listed unregister_bound drop_count
unregister_connection c s = drop_count (unregister_bound c (unregister_listed c s))

unfoldable pub bind_user : ℕ → String → Server → Server
unfolding write_conn
bind_user c user s =
    let s' = write_conn c (set_user_id user (s.conns c)) s in
    record s' { user_conns = bind user (id_of s' c) c s'.user_conns }

-- The loop over a list of connections that keeps the last error. `send` is `conn.Send` on the
-- background context, with the state that it changes.
module _ {ℓ} {S E : Type ℓ} (send : ℕ → S → S × Option E) where
  unfoldable pub send_each : List ℕ → S → Option E → S × Option E
  send_each [] st last_err = (st, last_err)
  send_each (c ∷ cs) st last_err =
      let (st', e) = send c st in send_each cs st' (elim e [ none ↦ last_err | some x ↦ some x ])

  unfoldable pub broadcast : Server → S → S × Option E
  unfolding send_each
  broadcast s st = send_each (values s.connections) st none

  -- The loop over the users stands around the loop over each one's connections.
  unfoldable pub send_users : Server → List String → S → Option E → S × Option E
  unfolding send_each
  send_users s [] st last_err = (st, last_err)
  send_users s (u ∷ us) st last_err =
      let (st', e) = send_each (conns_of u s.user_conns) st last_err in send_users s us st' e

  unfoldable pub broadcast_to : Server → List String → S → S × Option E
  unfolding send_users
  broadcast_to s user_ids st = send_users s user_ids st none

  -- `not_found` is `ErrUserNotFound`.
  unfoldable pub send_to : E → Server → String → S → S × Option E
  unfolding send_each
  send_to not_found s user st = elim (lookup user s.user_conns) [
    | none ↦ (st, some not_found)
    | some conns ↦ send_each (values conns) st none
  ]

-- The first connection that a loop over the user's map meets.
unfoldable pub get_connection : Server → String → Option ℕ
get_connection s user = elim (lookup user s.user_conns) [
  | none ↦ none
  | some conns ↦ elim (values conns) [ [] ↦ none | c ∷ _ ↦ some c ]
]

unfoldable pub get_connections : Server → List String → List ℕ
unfolding listed_conns
get_connections s user_ids = listed_conns s.user_conns user_ids

unfoldable pub connection_count : Server → ℤ
connection_count s = s.conn_count

unfoldable pub visit_conns {ℓ} : {S : Type ℓ} → (ℕ → S → S × Bool) → List ℕ → S → S
visit_conns fn [] st = st
visit_conns fn (c ∷ cs) st =
    let (st', more) = fn c st in let rest = visit_conns fn cs st' in if more then rest else st'

unfoldable pub for_each_connection {ℓ} : {S : Type ℓ} → (ℕ → S → S × Bool) → Server → S → S
unfolding visit_conns
for_each_connection fn s st = visit_conns fn (values s.connections) st
