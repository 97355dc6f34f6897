-- ===== src/Protocol/Server/Indexed.antt =====
-- internal/protocol/connection.go: the views of a server that keeps a user index.
use go_wst.Prelude.{
  ℕ, In, ◌↔◌, ◌<◌, ◌≡◌, refl, ap, String, List, [], ◌∷◌, ◌++◌, Option, none, some, Option-cases,
  inl, inr, arith,
}
use go_wst.Prelude.Dict.{
  lookup, values, Dict, size, EveryEntry-lookup, Distinct, lookup_of_In-values, In-values_of_lookup,
}
use go_wst.Registry.{UserIndex, IsIndex, conns_of, listed_conns}
use go_wst.Protocol.Server.{each_of, first_of, or_missing}

pub In-values :
    (conns : Dict ℕ) (c : ℕ)
    → Distinct conns
    → In c (values conns) ↔ ((id : String) × (lookup id conns ≡ some c))
In-values conns c distinct =
    (lookup_of_In-values c conns distinct, λ (id, found). In-values_of_lookup id c conns found)

pub each_of-listed_conns :
    (index : UserIndex) (us : List String)
    → listed_conns index us ≡ each_of (λ u. conns_of u index) us
unfolding listed_conns
each_of-listed_conns index [] = refl
each_of-listed_conns index (u ∷ us) =
    ap (λ cs. conns_of u index ++ cs) (each_of-listed_conns index us)

values_found : (conns : Dict ℕ) → 0 < size conns → (c : ℕ) × (cs : List ℕ) × (values conns ≡ c ∷ cs)
unfolding size values
values_found [] h = absurd (omega arith)
values_found ((k, c) ∷ rest) h = (c, _, refl)

-- A look at the user's map, where a valid index has no empty one.
pub looked_up :
    {S E : Type 0} (index : UserIndex) (u : String) (st : S) (not_found : E)
    (f : List ℕ → S × Option E)
    → IsIndex index
    → (elim (lookup u index) [ none ↦ (st, some not_found) | some conns ↦ f (values conns) ])
      ≡ or_missing not_found st (conns_of u index) (f (conns_of u index))
unfolding conns_of
looked_up index u st not_found f valid = elim (Option-cases (lookup u index)) [
  | inl missing ↦ rw (missing, conns_of) refl
  | inr (conns, there) ↦
      let user =
        EveryEntry-lookup (λ _ (m : Dict ℕ). Distinct m × (0 < size m)) u index valid.inner there in
      let (c, cs, found) = values_found conns user.1 in rw (there, conns_of, found) refl
]

first_listed : (cs : List ℕ) → (elim cs [ [] ↦ none | c ∷ _ ↦ some c ]) ≡ first_of cs
first_listed [] = refl
first_listed (c ∷ cs) = refl

pub first_looked_up :
    (index : UserIndex) (u : String)
    → (elim (lookup u index) [
      | none ↦ none
      | some conns ↦ elim (values conns) [ [] ↦ none | c ∷ _ ↦ some c ]
    ])
      ≡ first_of (conns_of u index)
unfolding conns_of
first_looked_up index u = elim (Option-cases (lookup u index)) [
  | inl missing ↦ rw (missing, conns_of) refl
  | inr (conns, there) ↦ rw (there, conns_of) (first_listed (values conns))
]
