-- ===== src/Stateful/Hub/Lookup.antt =====
-- stateful/hub.go: the operations on the hub seen as one map from connection IDs and one from users
-- and connection IDs.
use go_wst.Prelude.{
  ℕ, ◌≡◌, ◌≢◌, refl, sym, ap, subst, String, str_eq, eq_iff, ◌&&◌, not, Option, none, some,
  get_elem?, set, Bool, true, false, if◌then◌else◌, arith, ◌==◌, ℕ_discrete, get_elem?-set_self,
  get_elem?-set_ne, lt_of_get_elem?,
}
use go_wst.Prelude.Dict.{lookup, insert, lookup-insert, lookup-delete}
use go_wst.Prelude.Go.{Go, returns, ◌>>=◌}
use go_wst.Registry.{bound, bind, bound-bind}
use go_wst.Stateful.Hash.{shard_index}
use go_wst.Stateful.Hub.Defs.{
  Shard, Hub, get_shard, register, unregister, unregister_shard, bind_user, get,
}
use go_wst.Stateful.Hub.Shards.{
  insert-IsShard, bind-IsShard, unregister-IsShard, bound-unregister_index, unregister_index,
}
use go_wst.Stateful.Hub.Invariant.{IsHub, shard_of, get_shard-returns, replaced, replaced-IsHub}

-- What the hub holds for a user and a connection ID: in the shard of the connection ID.
unfoldable pub get_bound : Hub → String → String → Go (Option ℕ)
get_bound h user j = do s ← get_shard h j; returns (bound user j s.user_conns)

get_shard_other :
    (h : Hub) (key j : String) (new : Shard)
    → shard_index h.shard_mask key ≢ shard_index h.shard_mask j
    → get_shard (replaced h key new) j ≡ get_shard h j
unfolding get_shard
get_shard_other h key j new p = rw (get_elem?-set_ne h.shards new p)

-- A read through the shard of a key, after the shard of another key was replaced.
module _ {ℓ} {A : Type ℓ} (read : String → Shard → A) where
  abbrev read_at : Hub → String → Go A
  read_at h j = do s ← get_shard h j; returns (read j s)

  read_replaced :
      (h : Hub) (key j : String) (old new : Shard) (hit : Bool) (a : A)
      → get_elem? h.shards (shard_index h.shard_mask key) ≡ some old
      → (hit ≡ true → key ≡ j)
      → read j new ≡ (if hit then a else read j old)
      → read_at (replaced h key new) j ≡ (if hit then returns a else read_at h j)
  read_replaced h key j old new hit a e same law =
      elim (ℕ_discrete (shard_index h.shard_mask key) (shard_index h.shard_mask j)) [
        | yes p ↦
            rw
              (
                get_shard-returns (replaced h key new) j (
                    subst
                      (λ n. get_elem? (set h.shards n new) (shard_index h.shard_mask j) ≡ some new)
                      (sym p)
                      (get_elem?-set_self h.shards (shard_index h.shard_mask j) new (
                        lt_of_get_elem? h.shards _
                          (subst (λ n. get_elem? h.shards n ≡ some old) p e)))),
                get_shard-returns h j (subst (λ n. get_elem? h.shards n ≡ some old) p e),
                law,
              )
              (ground arith)
        | no p ↦
            rw (get_shard_other h key j new p)
              (ground (arith, λ (t : hit ≡ true). p (ap (shard_index h.shard_mask) (same t))))
      ]

module _ (id : ℕ → String) where
  -- In a valid hub registering never panics, keeps the hub valid, and sets the ID of the connection
  -- in the map of connections and nothing else.
  pub register_lem :
      (h : Hub) (conn : ℕ)
      → IsHub id h
      → (h' : Hub) × (register id h conn ≡ returns h')
        × IsHub id h'
        × ((j : String) → get h' j ≡ (if str_eq (id conn) j then returns (some conn) else get h j))
        × ((u j : String) → get_bound h' u j ≡ get_bound h u j)
  unfolding register get get_bound
  register_lem h conn v =
      let (s, e) = shard_of id h (id conn) v in
      let new : Shard = record s { connections = insert (id conn) conn s.connections } in
      (
        replaced h (id conn) new,
        rw (get_shard-returns h (id conn) e),
        replaced-IsHub id h (id conn) new v (insert-IsShard id h.shard_mask conn s (v.each _ s e)),
        (λ j.
            read_replaced (λ j s. lookup j s.connections) h (id conn) j s new (str_eq (id conn) j)
              (some conn) e (eq_iff (id conn) j).0 (lookup-insert (id conn) j conn s.connections)),
        (λ u j.
            read_replaced (λ j s. bound u j s.user_conns) h (id conn) j s new false none e (λ f. cc)
              refl),
      )

  -- In a valid hub unregistering never panics, keeps the hub valid, and drops the ID from the map of connections
  -- and, for a connection that carries a user, the pair of the two from the user index.
  pub unregister_lem :
      (h : Hub) (user : String) (conn : ℕ)
      → IsHub id h
      → (h' : Hub) × (unregister id h user conn ≡ returns h')
        × IsHub id h'
        × ((j : String) → get h' j ≡ (if str_eq (id conn) j then returns none else get h j))
        × ((u j : String)
            → get_bound h' u j ≡ (
                if not (str_eq user "") && (str_eq user u && str_eq (id conn) j)
                then returns none
                else get_bound h u j))
  unfolding unregister get get_bound unregister_index
  unregister_lem h user conn v =
      let (s, e) = shard_of id h (id conn) v in
      let new : Shard = unregister_shard id user conn s in
      (
        replaced h (id conn) new,
        rw (get_shard-returns h (id conn) e),
        replaced-IsHub id h (id conn) new v
            (unregister-IsShard id h.shard_mask conn s (v.each _ s e) user),
        (λ j.
            read_replaced (λ j s. lookup j s.connections) h (id conn) j s new (str_eq (id conn) j)
              none e (eq_iff (id conn) j).0 (lookup-delete (id conn) j s.connections)),
        (λ u j.
            read_replaced (λ j s. bound u j s.user_conns) h (id conn) j s new
              (not (str_eq user "") && (str_eq user u && str_eq (id conn) j)) none e
              (λ t. ground (arith, eq_iff (id conn) j))
              (bound-unregister_index user u (id conn) j s.user_conns)),
      )

  -- In a valid hub binding never panics, keeps the hub valid, writes the user into the connection, and sets the
  -- pair of the user and the ID in the user index and nothing else.
  pub bind_user_lem :
      (h : Hub) (users : ℕ → String) (conn : ℕ) (user : String)
      → IsHub id h
      → (h' : Hub) × (users' : ℕ → String) × (bind_user id h users conn user ≡ returns (h', users'))
        × IsHub id h'
        × ((c : ℕ) → users' c ≡ (if c == conn then user else users c))
        × ((j : String) → get h' j ≡ get h j)
        × ((u j : String)
            → get_bound h' u j ≡ (
                if str_eq user u && str_eq (id conn) j
                then returns (some conn)
                else get_bound h u j))
  unfolding bind_user get get_bound
  bind_user_lem h users conn user v =
      let (s, e) = shard_of id h (id conn) v in
      let new : Shard = record s { user_conns = bind user (id conn) conn s.user_conns } in
      (
        replaced h (id conn) new,
        (λ c. if c == conn then user else users c),
        rw (get_shard-returns h (id conn) e),
        replaced-IsHub id h (id conn) new v
            (bind-IsShard id h.shard_mask conn s (v.each _ s e) user),
        (λ c. refl),
        (λ j.
            read_replaced (λ j s. lookup j s.connections) h (id conn) j s new false none e (λ f. cc)
              refl),
        (λ u j.
            read_replaced (λ j s. bound u j s.user_conns) h (id conn) j s new
              (str_eq user u && str_eq (id conn) j) (some conn) e
              (λ t. ground (arith, eq_iff (id conn) j))
              (bound-bind user u (id conn) j conn s.user_conns)),
      )
