-- ===== src/Hybrid/Server/Sending.antt =====
-- hybrid/server.go: sending and listing. The loop over a list of connections and the visit of one
-- are the same statements as in ws/server.go.
use go_wst.Prelude.{
  ℕ, ◌≡◌, ◌↔◌, ◌⊎◌, refl, sym, ◌∙◌, inl, inr, subst, String, str_eq, eq_iff, List, [], ◌∷◌, Option,
  none, some, Bool, false, ◌&&◌, In, arith, Bool-cases,
}
use go_wst.Prelude.Int.{ℤ}
use go_wst.Prelude.Dict.{str_eq_refl, lookup, values}
use go_wst.Registry.{
  UserIndex, IsIndex, bind, bound, conns_of, listed_conns, In-listed_conns, bound-bind,
  bind-IsIndex,
}
use go_wst.Ws.Server.{send_each, visit_conns}
use go_wst.Hybrid.Server.{Server, bind_user}

-- `send` is `conn.Send` on the background context, with the state that it changes.
module _ {ℓ} {S E : Type ℓ} (send : ℕ → S → S × Option E) where
  unfoldable pub broadcast : Server → S → S × Option E
  unfolding send_each
  broadcast s st = send_each send (values s.connections) st none

  unfoldable pub send_users : UserIndex → List String → S → Option E → S × Option E
  unfolding send_each
  send_users index [] st last_err = (st, last_err)
  send_users index (u ∷ us) st last_err =
      let (st', e) = send_each send (conns_of u index) st last_err in send_users index us st' e

  unfoldable pub broadcast_to : Server → List String → S → S × Option E
  unfolding send_users
  broadcast_to s user_ids st = send_users s.user_conns user_ids st none

  -- `not_found` is the error `user not found`.
  unfoldable pub send_to : E → Server → String → S → S × Option E
  unfolding send_each
  send_to not_found s user st = elim (lookup user s.user_conns) [
    | none ↦ (st, some not_found)
    | some conns ↦ send_each send (values conns) st none
  ]

-- The first connection that a loop over the user's map meets.
unfoldable pub get_connection : Server → String → Option ℕ
get_connection s user = elim (lookup user s.user_conns) [
  | none ↦ none
  | some conns ↦ elim (values conns) [ [] ↦ none | c ∷ _ ↦ some c ]
]

unfoldable pub get_connections : Server → List String → List ℕ
unfolding listed_conns
get_connections s user_ids = listed_conns s.user_conns user_ids

unfoldable pub connection_count : Server → ℤ
connection_count s = s.conn_count

unfoldable pub for_each_connection {ℓ} : {S : Type ℓ} → (ℕ → S → S × Bool) → Server → S → S
unfolding visit_conns
for_each_connection fn s st = visit_conns fn (values s.connections) st

module _ (id : ℕ → String) where
  -- Where the user index is valid, binding a connection to a user makes `GetConnections` return it
  -- for every list with that user; the other connections that it returns for a list are those bound
  -- before to a user of the list, unless under that user and the same connection ID.
  pub get_connections-bind_user :
      (c d : ℕ) (user : String) (s : Server) (users : ℕ → String) (user_ids : List String)
      → IsIndex s.user_conns
      → In d (get_connections (bind_user id c user s users).0 user_ids) ↔ (
          (In user user_ids × (d ≡ c))
          ⊎ ((v : String) × In v user_ids
              × (j : String) × ((str_eq user v && str_eq (id c) j) ≡ false)
              × (bound v j s.user_conns ≡ some d)))
  unfolding get_connections bind_user
  get_connections-bind_user c d user s users user_ids v =
      let index = bind user (id c) c s.user_conns in
      let valid = bind-IsIndex user (id c) c s.user_conns v in
      (
        (λ h.
            let (w, among, j, e) = (In-listed_conns index user_ids d valid).0 h in
            elim (Bool-cases (str_eq user w && str_eq (id c) j)) [
              | inl same ↦ inl (
                subst (λ x. In x user_ids) (ground (arith, eq_iff user w)) among,
                some_eq (sym e ∙ rw (bound-bind user w (id c) j c s.user_conns, same) refl),
              )
              | inr other ↦
                  inr
                    (w, among, j, other, rw (bound-bind user w (id c) j c s.user_conns, other) at e)
            ]),
        λ how. elim how [
          | inl (among, here) ↦ (In-listed_conns index user_ids d valid).1 (
            user,
            among,
            id c,
            rw
                (
                  bound-bind user user (id c) (id c) c s.user_conns,
                  str_eq_refl user,
                  str_eq_refl (id c),
                  here,
                )
                refl,
          )
          | inr (w, among, j, other, e) ↦
              (In-listed_conns index user_ids d valid).1
                (w, among, j, rw (bound-bind user w (id c) j c s.user_conns, other) e)
        ],
      )
    where
      some_eq : {x y : ℕ} → some x ≡ some y → x ≡ y
      some_eq e = cc
