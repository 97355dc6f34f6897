-- ===== src/Ws/Server/Delivery.antt =====
-- ws/server.go, `GetConnections`, `Broadcast` and `BroadcastTo`: whom they reach.
use go_wst.Prelude.{
  ℕ, ◌≡◌, ◌↔◌, refl, sym, ◌∙◌, String, List, [], ◌∷◌, ◌++◌, Option, none, some, In,
}
use go_wst.Registry.{IsIndex, bound, conns_of, listed_conns, In-listed_conns}
use go_wst.Ws.Server.{Server, send_each, send_users, broadcast_to, get_connections}

-- Where the user index is valid, `GetConnections` returns the connections that are bound to one of
-- the users, and no others.
get_connections_iff :
    (s : Server) (users : List String) (c : ℕ)
    → IsIndex s.user_conns
    → In c (get_connections s users)
      ↔ ((u : String) × In u users × (id : String) × (bound u id s.user_conns ≡ some c))
unfolding get_connections
get_connections_iff s users c v = In-listed_conns s.user_conns users c v

module _ {ℓ} {S E : Type ℓ} (send : ℕ → S → S × Option E) where
  pub send_each-append :
      (xs ys : List ℕ) (st : S) (last : Option E)
      → send_each send (xs ++ ys) st last
        ≡ send_each send ys (send_each send xs st last).0 (send_each send xs st last).1
  unfolding send_each
  send_each-append [] ys st last = refl
  send_each-append (x ∷ xs) ys st last = send_each-append xs ys _ _

  send_users-get_connections :
      (s : Server) (users : List String) (st : S) (last : Option E)
      → send_users send s users st last ≡ send_each send (get_connections s users) st last
  unfolding send_users get_connections listed_conns
  send_users-get_connections s [] st last = refl
  send_users-get_connections s (u ∷ us) st last =
      send_users-get_connections s us _ _
      ∙ sym (send_each-append (conns_of u s.user_conns) (get_connections s us) st last)

  -- `BroadcastTo`, a loop in a loop, is the one loop over the connections that `GetConnections`
  -- returns, which sends to each in turn and keeps the last error.
  pub broadcast_to-get_connections :
      (s : Server) (users : List String) (st : S)
      → broadcast_to send s users st ≡ send_each send (get_connections s users) st none
  unfolding broadcast_to
  broadcast_to-get_connections s users st = send_users-get_connections s users st none
