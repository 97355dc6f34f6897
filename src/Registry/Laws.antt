-- ===== src/Registry/Laws.antt =====
-- The user index is a map from pairs of a user and a connection ID.
use go_wst.Prelude.{
  ℕ, ◌<◌, ◌==◌, ◌≡◌, ◌↔◌, inl, inr, ◌&&◌, if◌then◌else◌, String, str_eq, eq_iff, none, some, [], In,
  Option-cases, Bool-cases, arith,
}
use go_wst.Prelude.Dict.{
  Dict, lookup, insert, delete, size, Distinct, lookup-insert, lookup-delete, insert-Distinct,
  delete-Distinct, size-insert_pos, EveryEntry-insert, EveryEntry-delete, EveryEntry-lookup,
  lookup_empty, In-values_of_lookup, lookup_of_In-values,
}
use go_wst.Registry.Defs.{UserIndex, bound, bind, unbind, conns_of, IsIndex}

pub bound-bind :
    (u v id j : String) (c : ℕ) (m : UserIndex)
    → bound v j (bind u id c m) ≡ (if str_eq u v && str_eq id j then some c else bound v j m)
unfolding bound bind lookup
bound-bind u v id j c m = elim (Option-cases (lookup u m)) [
  | inl e ↦
      ground (arith, eq_iff u v, e, lookup-insert u v (insert id c []) m, lookup-insert id j c [])
  | inr (conns, e) ↦
      ground
        (arith, eq_iff u v, e, lookup-insert u v (insert id c conns) m, lookup-insert id j c conns)
]

pub bound-unbind :
    (u v id j : String) (m : UserIndex)
    → bound v j (unbind u id m) ≡ (if str_eq u v && str_eq id j then none else bound v j m)
unfolding bound unbind
bound-unbind u v id j m = elim (Option-cases (lookup u m)) [
  | inl e ↦ ground (arith, eq_iff u v, e)
  | inr (conns, e) ↦ ground (
    arith,
    eq_iff u v,
    e,
    lookup-insert u v (delete id conns) m,
    lookup-delete u v m,
    lookup-delete id j conns,
    lookup_empty j (delete id conns),
  )
]

abbrev IsUser : String → Dict ℕ → Type 0
IsUser u conns = Distinct conns × (0 < size conns)

pub bind-IsIndex : (u id : String) (c : ℕ) (m : UserIndex) → IsIndex m → IsIndex (bind u id c m)
unfolding bind
bind-IsIndex u id c m v = elim (Option-cases (lookup u m)) [
  | inl e ↦
      rw (e, bind)
        (record {
          distinct = insert-Distinct u _ m v.distinct;
          inner =
              EveryEntry-insert IsUser u _ m (insert-Distinct id c [] tt, size-insert_pos id c [])
                v.inner;
        })
  | inr (conns, e) ↦
      let user = EveryEntry-lookup IsUser u m v.inner e in
      rw (e, bind)
        (record {
          distinct = insert-Distinct u _ m v.distinct;
          inner =
              EveryEntry-insert IsUser u _ m
                (insert-Distinct id c conns user.0, size-insert_pos id c conns) v.inner;
        })
]

pub unbind-IsIndex : (u id : String) (m : UserIndex) → IsIndex m → IsIndex (unbind u id m)
unfolding unbind
unbind-IsIndex u id m v = elim (Option-cases (lookup u m)) [
  | inl e ↦ rw (e, unbind) v
  | inr (conns, e) ↦
      let user = EveryEntry-lookup IsUser u m v.inner e in
      rw (e, unbind)
        (elim (Bool-cases (size (delete id conns) == 0)) [
          | inl last ↦ rw last (record {
            distinct = delete-Distinct u m v.distinct;
            inner = EveryEntry-delete IsUser u m v.inner;
          })
          | inr more ↦ rw more (record {
            distinct = insert-Distinct u _ m v.distinct;
            inner =
                EveryEntry-insert IsUser u _ m (delete-Distinct id conns user.0, ground arith)
                  v.inner;
          })
        ])
]

-- A loop over the connections of a user goes through those that are bound to it.
pub In-conns_of :
    (u : String) (c : ℕ) (m : UserIndex)
    → IsIndex m
    → In c (conns_of u m) ↔ ((id : String) × (bound u id m ≡ some c))
unfolding conns_of bound
In-conns_of u c m v = elim (Option-cases (lookup u m)) [
  | inl e ↦ rw (e, conns_of, bound) (λ h. elim h [ ], λ (id, h). absurd (cc))
  | inr (conns, e) ↦
      rw (e, conns_of, bound)
        (
          lookup_of_In-values c conns (EveryEntry-lookup IsUser u m v.inner e).0,
          λ (id, h). In-values_of_lookup id c conns h,
        )
]
