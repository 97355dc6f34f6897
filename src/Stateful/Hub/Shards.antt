-- ===== src/Stateful/Hub/Shards.antt =====
-- stateful/hub.go: each update of one shard keeps what it holds keyed by the right IDs.
use go_wst.Prelude.{
  ℕ, ◌≡◌, sym, ap, ◌∙◌, inl, inr, ◌&&◌, String, str_eq, eq_iff, arith, Bool-cases, none,
  if◌then◌else◌, not,
}
use go_wst.Prelude.Dict.{insert, lookup-insert, lookup-delete, insert-Distinct, delete-Distinct}
use go_wst.Registry.{
  UserIndex, bound, bind, unbind, bound-bind, bound-unbind, bind-IsIndex, unbind-IsIndex, IsIndex,
}
use go_wst.Stateful.Hash.{shard_index}
use go_wst.Stateful.Hub.Defs.{Shard, unregister_shard}
use go_wst.Stateful.Hub.Invariant.{IsShard}

-- Unregistering drops the pair of the user and the ID, unless the user is the empty text.
unfoldable pub unregister_index : String → String → UserIndex → UserIndex
unregister_index user id m = if str_eq user "" then m else unbind user id m

pub bound-unregister_index :
    (user v id j : String) (m : UserIndex)
    → bound v j (unregister_index user id m)
      ≡ (if not (str_eq user "") && (str_eq user v && str_eq id j) then none else bound v j m)
unfolding unregister_index
bound-unregister_index user v id j m = ground (arith, bound-unbind user v id j m)

unregister_index-IsIndex :
    (user id : String) (m : UserIndex) → IsIndex m → IsIndex (unregister_index user id m)
unfolding unregister_index
unregister_index-IsIndex user id m v = elim (Bool-cases (str_eq user "")) [
  | inl e ↦ rw e v
  | inr e ↦ rw e (unbind-IsIndex user id m v)
]

module _ (id : ℕ → String) (mask : ℕ) where
  module _ (conn : ℕ) (s : Shard) (v : IsShard id mask (shard_index mask (id conn)) s) where
    -- A key that is the ID of the connection belongs where the connection does.
    own_key :
        (j : String) (c : ℕ)
        → id conn ≡ j
        → conn ≡ c
        → (id c ≡ j) × (shard_index mask j ≡ shard_index mask (id conn))
    own_key j c p q = (ap id (sym q) ∙ p, ap (shard_index mask) (sym p))

    pub insert-IsShard :
        IsShard id mask
          (shard_index mask (id conn))
          (record s { connections = insert (id conn) conn s.connections })
    insert-IsShard = record {
      distinct = insert-Distinct (id conn) conn s.connections v.distinct;
      index = v.index;
      placed = λ j c q. elim (Bool-cases (str_eq (id conn) j)) [
        | inl hit ↦
            own_key j c ((eq_iff (id conn) j).0 hit)
              (ground (arith, lookup-insert (id conn) j conn s.connections))
        | inr miss ↦ v.placed j c (ground (arith, lookup-insert (id conn) j conn s.connections))
      ];
      user_placed = v.user_placed;
    }

    pub bind-IsShard :
        (user : String)
        → IsShard id mask
            (shard_index mask (id conn))
            (record s { user_conns = bind user (id conn) conn s.user_conns })
    bind-IsShard user = record {
      distinct = v.distinct;
      index = bind-IsIndex user (id conn) conn s.user_conns v.index;
      placed = v.placed;
      user_placed = λ u j c q. elim (Bool-cases (str_eq user u && str_eq (id conn) j)) [
        | inl hit ↦
            own_key j c (ground (arith, eq_iff (id conn) j))
              (ground (arith, bound-bind user u (id conn) j conn s.user_conns))
        | inr miss ↦
            v.user_placed u j c (ground (arith, bound-bind user u (id conn) j conn s.user_conns))
      ];
    }

    pub unregister-IsShard :
        (user : String)
        → IsShard id mask (shard_index mask (id conn)) (unregister_shard id user conn s)
    unfolding unregister_index
    unregister-IsShard user = record {
      distinct = delete-Distinct (id conn) s.connections v.distinct;
      index = unregister_index-IsIndex user (id conn) s.user_conns v.index;
      placed = λ j c q. v.placed j c (ground (arith, lookup-delete (id conn) j s.connections));
      user_placed = λ u j c q.
          v.user_placed u j c
            (ground (arith, bound-unregister_index user u (id conn) j s.user_conns));
    }
