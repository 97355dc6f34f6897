-- ===== src/Ws/Server/Kept.antt =====
-- ws/server.go: closing a connection leaves the registries alone.
use go_wst.Prelude.{ℕ, ◌≡◌, refl, ◌∙◌, String, Option, none, Bool, arith}
use go_wst.Prelude.Go.{Go, returns, panics}
use go_wst.Ws.Connection.{Connection, user_id, write_message, Frame}
use go_wst.Ws.Connection.Laws.{close-id}
use go_wst.Ws.Server.{Server, write_conn, close_conn, refuse_conn, after_close, id_of, user_of}

-- The server after a step that leaves every ID and every user in place.
pub record Kept (s t : Server) : Type 0 where
  pub ids_same : (d : ℕ) → id_of t d ≡ id_of s d
  pub users_same : (d : ℕ) → user_of t d ≡ user_of s d
  pub connections_same : t.connections ≡ s.connections
  pub user_conns_same : t.user_conns ≡ s.user_conns

pub write_conn-Kept :
    (c : ℕ) (v : Connection) (s : Server)
    → v.id ≡ id_of s c
    → user_id v ≡ user_of s c
    → Kept s (write_conn c v s)
unfolding write_conn
write_conn-Kept c v s e u = record {
  ids_same = λ d. ground arith;
  users_same = λ d. ground arith;
  connections_same = refl;
  user_conns_same = refl;
}

after_close-Kept :
    (c : ℕ) (s : Server) (g : Go (Connection × Option String))
    → ((r : Connection × Option String)
        → g ≡ returns r
        → (r.0.id ≡ id_of s c) × (user_id r.0 ≡ user_of s c))
    → Kept s (after_close c s g)
unfolding after_close
after_close-Kept c s panics h = record {
  ids_same = λ d. refl;
  users_same = λ d. refl;
  connections_same = refl;
  user_conns_same = refl;
}
after_close-Kept c s (returns r) h = write_conn-Kept c r.0 s ((h r refl).0) ((h r refl).1)

pub close_conn-Kept : (c : ℕ) (s : Server) → Kept s (close_conn c s)
unfolding close_conn
close_conn-Kept c s = after_close-Kept c s _ (close-id (s.write_fails c) none (s.conns c))

write_message-id :
    (f : Bool) (frame : Frame) (c : Connection)
    → ((write_message f frame c).0.id ≡ c.id) × (user_id (write_message f frame c).0 ≡ user_id c)
unfolding write_message user_id
write_message-id f frame c = ground arith

Kept-trans : {s t u : Server} → Kept s t → Kept t u → Kept s u
Kept-trans p q = record {
  ids_same = λ d. q.ids_same d ∙ p.ids_same d;
  users_same = λ d. q.users_same d ∙ p.users_same d;
  connections_same = q.connections_same ∙ p.connections_same;
  user_conns_same = q.user_conns_same ∙ p.user_conns_same;
}

pub refuse_conn-Kept : (c : ℕ) (s : Server) → Kept s (refuse_conn c s)
unfolding refuse_conn
refuse_conn-Kept c s =
    let written = write_message-id (s.write_fails c) _ (s.conns c) in
    Kept-trans (write_conn-Kept c _ s (written.0) (written.1)) (close_conn-Kept c _)
