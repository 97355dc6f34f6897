-- ===== src/Registry/Listing.antt =====
-- The connections of a list of users: the loops of `GetConnections` and `BroadcastTo` in the servers.
use go_wst.Prelude.{
  ℕ, ◌≡◌, ◌↔◌, refl, sym, ap, ◌∙◌, inl, inr, String, List, [], ◌∷◌, ◌++◌, some, In, In-append,
  In-append_left, In-append_right,
}
use go_wst.Registry.Defs.{UserIndex, IsIndex, bound, conns_of}
use go_wst.Registry.Laws.{In-conns_of}

unfoldable pub listed_conns : UserIndex → List String → List ℕ
listed_conns index [] = []
listed_conns index (u ∷ us) = conns_of u index ++ listed_conns index us

listed_conns-bound :
    (index : UserIndex) (users : List String) (c : ℕ)
    → IsIndex index
    → In c (listed_conns index users)
    → (u : String) × In u users × (id : String) × (bound u id index ≡ some c)
unfolding listed_conns
listed_conns-bound index [] c v h = elim h [ ]
listed_conns-bound index (u ∷ us) c v h =
    elim (In-append c (conns_of u index) (listed_conns index us) h) [
      | inl first ↦ let (id, found) = (In-conns_of u c index v).0 first in (u, inl refl, id, found)
      | inr later ↦
          let (w, among, id, found) = listed_conns-bound index us c v later in
          (w, inr among, id, found)
    ]

listed_conns_reaches :
    (index : UserIndex) (users : List String) (c : ℕ) (u id : String)
    → IsIndex index
    → In u users
    → bound u id index ≡ some c
    → In c (listed_conns index users)
unfolding listed_conns
listed_conns_reaches index [] c u id v among e = elim among [ ]
listed_conns_reaches index (w ∷ us) c u id v (inl same) e =
    In-append_left c (conns_of w index) (listed_conns index us)
      ((In-conns_of w c index v).1 (id, ap (λ x. bound x id index) (sym same) ∙ e))
listed_conns_reaches index (w ∷ us) c u id v (inr later) e =
    In-append_right c (conns_of w index) (listed_conns index us)
      (listed_conns_reaches index us c u id v later e)

-- The loop finds what is bound to one of the users.
pub In-listed_conns :
    (index : UserIndex) (users : List String) (c : ℕ)
    → IsIndex index
    → In c (listed_conns index users)
      ↔ ((u : String) × In u users × (id : String) × (bound u id index ≡ some c))
In-listed_conns index users c v = (
  listed_conns-bound index users c v,
  λ (u, among, id, e). listed_conns_reaches index users c u id v among e,
)
