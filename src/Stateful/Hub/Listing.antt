-- ===== src/Stateful/Hub/Listing.antt =====
-- stateful/hub.go: the loops over all shards.
use go_wst.Prelude.{
  ℕ, suc, ◌+◌, ◌≡◌, ◌↔◌, refl, sym, ap, subst, ◌∙◌, String, List, [], ◌∷◌, ◌++◌, some, get_elem?,
  Bool, if◌then◌else◌, arith, length, length-append, eq_iff, In, NoDup, inl, inr, NoDup-append,
  gather, In-gather, In-gather_of, Bool-cases,
}
use go_wst.Prelude.Dict.{
  Dict, lookup, values, Distinct, In-values_of_lookup, lookup_of_In-values, length-values,
}
use go_wst.Prelude.Go.{returns}
use go_wst.Registry.{conns_of, In-conns_of}
use go_wst.Stateful.Hash.{shard_index}
use go_wst.Stateful.Hub.Defs.{
  Shard, Hub, get, get_by_user, get_by_user_from, count, count_from, visit, for_each, for_each_from,
}
use go_wst.Stateful.Hub.Invariant.{IsShard, IsHub, shard_of, get_shard-returns}
use go_wst.Stateful.Hub.Lookup.{get_bound}

abbrev held : Shard → List ℕ
held s = values s.connections

-- The connections in the order of the loops.
unfoldable pub all_conns : Hub → List ℕ
all_conns h = gather held h.shards

visit-append {ℓ} :
    {S : Type ℓ} (fn : ℕ → S → S × Bool) (xs ys : List ℕ) (st : S)
    → visit fn (xs ++ ys) st
      ≡ (if (visit fn xs st).1 then visit fn ys (visit fn xs st).0 else visit fn xs st)
unfolding visit
visit-append fn [] ys st = refl
visit-append fn (x ∷ xs) ys st = elim (Bool-cases (fn x st).1) [
  | inl e ↦ rw e (visit-append fn xs ys (fn x st).0)
  | inr e ↦ rw e
]

for_each_from-visit {ℓ} :
    {S : Type ℓ} (fn : ℕ → S → S × Bool) (shards : List Shard) (st : S)
    → for_each_from fn shards st ≡ visit fn (gather held shards) st
unfolding for_each_from gather
for_each_from-visit fn [] st = refl
for_each_from-visit fn (s ∷ rest) st =
    rw (visit-append fn (held s) (gather held rest) st)
      (elim (Bool-cases (visit fn (held s) st).1) [
        | inl e ↦ rw e (for_each_from-visit fn rest (visit fn (held s) st).0)
        | inr e ↦ rw e (ground arith)
      ])

count_from-length : (shards : List Shard) → count_from shards ≡ length (gather held shards)
unfolding count_from gather
count_from-length [] = refl
count_from-length (s ∷ rest) = omega (
  arith,
  count_from-length rest,
  length-append (held s) (gather held rest),
  length-values s.connections,
)

get_by_user_from-gather :
    (user : String) (shards : List Shard)
    → get_by_user_from user shards ≡ gather (λ s. conns_of user s.user_conns) shards
unfolding get_by_user_from gather
get_by_user_from-gather user [] = refl
get_by_user_from-gather user (s ∷ rest) =
    ap (◌++◌ (conns_of user s.user_conns)) (get_by_user_from-gather user rest)

module _ (id : ℕ → String) where
  -- What a loop meets in the shards is what a lookup finds.
  In-held :
      (h : Hub) (c : ℕ)
      → IsHub id h
      → In c (all_conns h) ↔ ((j : String) × (get h j ≡ returns (some c)))
  unfolding all_conns get
  In-held h c v = (
    (λ m.
        let (i, s, e, p) = In-gather held c h.shards m in
        let (j, q) = lookup_of_In-values c s.connections (v.each i s e).distinct p in
        let (own, here) = (v.each i s e).placed j c q in
        (
          j,
          rw (get_shard-returns h j (subst (λ n. get_elem? h.shards n ≡ some s) (sym here) e))
              (ap returns q),
        )),
    (λ (j, q).
        let (s, e) = shard_of id h j v in
        In-gather_of held c h.shards (shard_index h.shard_mask j) e
          (In-values_of_lookup j c s.connections (ground (arith, get_shard-returns h j e)))),
  )

  -- In a valid hub `GetByUser` returns the connections that are bound to the user, and no others.
  get_by_user_iff :
      (h : Hub) (user : String) (c : ℕ)
      → IsHub id h
      → In c (get_by_user h user) ↔ ((j : String) × (get_bound h user j ≡ returns (some c)))
  unfolding get_by_user get_bound
  get_by_user_iff h user c v = rw (get_by_user_from-gather user h.shards) (
    (λ m.
        let (i, s, e, p) = In-gather (λ s. conns_of user s.user_conns) c h.shards m in
        let (j, q) = (In-conns_of user c s.user_conns (v.each i s e).index).0 p in
        let (own, here) = (v.each i s e).user_placed user j c q in
        (
          j,
          rw (get_shard-returns h j (subst (λ n. get_elem? h.shards n ≡ some s) (sym here) e))
              (ap returns q),
        )),
    (λ (j, q).
        let (s, e) = shard_of id h j v in
        In-gather_of (λ s. conns_of user s.user_conns) c h.shards (shard_index h.shard_mask j) e
          ((In-conns_of user c s.user_conns (v.each _ s e).index).1
            (j, ground (arith, get_shard-returns h j e)))),
  )

  values-NoDup :
      (m : Dict ℕ)
      → Distinct m
      → ((j : String) (c : ℕ) → lookup j m ≡ some c → id c ≡ j)
      → NoDup (values m)
  unfolding values lookup
  values-NoDup [] d own = tt
  values-NoDup ((k, c) ∷ m) d own = (
    (λ h.
        let (j, q) = lookup_of_In-values c m d.1 h in
        absurd (
          ground (
            arith,
            eq_iff k k,
            eq_iff k j,
            own k c (ground (arith, eq_iff k k)),
            own j c (ground (arith, eq_iff k j)),
          ))),
    values-NoDup m d.1 (λ j b q. own j b (ground (arith, eq_iff k j))),
  )

  all_conns-NoDup_from :
      (mask n : ℕ) (shards : List Shard)
      → ((i : ℕ) (s : Shard) → get_elem? shards i ≡ some s → IsShard id mask (n + i) s)
      → NoDup (gather held shards)
  unfolding gather
  all_conns-NoDup_from mask n [] each = tt
  all_conns-NoDup_from mask n (s ∷ rest) each =
      let first = each 0 s refl in
      NoDup-append (held s) (gather held rest)
        (values-NoDup s.connections first.distinct (λ j c q. (first.placed j c q).0))
        (all_conns-NoDup_from mask (n + 1) rest
          (λ i t e. subst (λ k. IsShard id mask k t) (omega arith) (each (suc i) t e)))
        λ c here there.
          let (i, t, e, p) = In-gather held c rest there in
          let other = each (suc i) t e in
          let (j, q) = lookup_of_In-values c s.connections first.distinct here in
          let (j', q') = lookup_of_In-values c t.connections other.distinct p in
          let (own, at_first) = first.placed j c q in
          let (own', at_other) = other.placed j' c q' in
          let same : shard_index mask j ≡ shard_index mask j' =
            ap (shard_index mask) (sym own ∙ own') in
          absurd (omega (arith, same, at_first, at_other))

  -- In a valid hub `ForEach` calls back on connections in turn until a call says stop; they are the connections
  -- that `Get` finds, each of them once, as many as `Count` returns.
  pub for_each_lem {ℓ} :
      {S : Type ℓ} (fn : ℕ → S → S × Bool) (h : Hub) (st : S)
      → IsHub id h
      → (cs : List ℕ) × (for_each fn h st ≡ (visit fn cs st).0)
        × NoDup cs
        × (length cs ≡ count h)
        × ((c : ℕ) → In c cs ↔ ((j : String) × (get h j ≡ returns (some c))))
  unfolding for_each count all_conns
  for_each_lem fn h st v = (
    gather held h.shards,
    ap (λ r. r.0) (for_each_from-visit fn h.shards st),
    all_conns-NoDup_from h.shard_mask 0 h.shards
        (λ i s e. subst (λ k. IsShard id h.shard_mask k s) (omega arith) (v.each i s e)),
    sym (count_from-length h.shards),
    (λ c. In-held h c v),
  )
