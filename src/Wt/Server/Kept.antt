-- ===== src/Wt/Server/Kept.antt =====
-- wt/server.go: closing a connection leaves the registries alone.
use go_wst.Prelude.{ℕ, ◌≡◌, refl, String, Option, arith}
use go_wst.Prelude.Go.{Go, returns, panics}
use go_wst.Wt.Connection.{Connection, user_id}
use go_wst.Wt.Connection.Laws.{close-id}
use go_wst.Wt.Server.{Server, write_conn, close_conn, after_close, id_of, user_of}

-- The server after a step that leaves every ID and every user in place.
pub record Kept (s t : Server) : Type 0 where
  pub ids_same : (d : ℕ) → id_of t d ≡ id_of s d
  pub users_same : (d : ℕ) → user_of t d ≡ user_of s d
  pub connections_same : t.connections ≡ s.connections
  pub user_conns_same : t.user_conns ≡ s.user_conns

pub write_conn-Kept :
    (c : ℕ) (v : Connection) (s : Server)
    → v.id ≡ id_of s c
    → user_id v ≡ user_of s c
    → Kept s (write_conn c v s)
unfolding write_conn
write_conn-Kept c v s e u = record {
  ids_same = λ d. ground arith;
  users_same = λ d. ground arith;
  connections_same = refl;
  user_conns_same = refl;
}

after_close-Kept :
    (c : ℕ) (s : Server) (g : Go (Connection × Option String))
    → ((r : Connection × Option String)
        → g ≡ returns r
        → (r.0.id ≡ id_of s c) × (user_id r.0 ≡ user_of s c))
    → Kept s (after_close c s g)
unfolding after_close
after_close-Kept c s panics h = record {
  ids_same = λ d. refl;
  users_same = λ d. refl;
  connections_same = refl;
  user_conns_same = refl;
}
after_close-Kept c s (returns r) h = write_conn-Kept c r.0 s ((h r refl).0) ((h r refl).1)

pub close_conn-Kept : (c : ℕ) (s : Server) → Kept s (close_conn c s)
unfolding close_conn
close_conn-Kept c s = after_close-Kept c s _ (close-id (s.session_error c) (s.conns c))
