-- ===== src/Stateful/Hub/Invariant.antt =====
-- stateful/hub.go: the invariant of the hub, and the rule for an update of one shard.
use go_wst.Prelude.{
  ℕ, ◌+◌, ◌-◌, ◌^◌, ◌≤◌, ◌<◌, ◌≡◌, refl, sym, subst, ◌∙◌, String, some, get_elem?, set, replicate,
  length, false, arith, inl, inr, Bool-cases, ℕ_discrete, length-set, get_elem?-set_self,
  get_elem?-set_ne, get_elem?_of_lt, get_elem?-replicate, length-replicate,
}
use go_wst.Prelude.Int.{ℤ, pos, negsuc, ◌≤ℤ◌, leb_ℤ, pos_part}
use go_wst.Prelude.Dict.{lookup, Distinct}
use go_wst.Prelude.Go.{returns}
use go_wst.Registry.{IsIndex, bound}
use go_wst.Stateful.PowerOf2.{next_power_of2, next_power_of2-least}
use go_wst.Stateful.Hash.{shard_index, shard_index-lt}
use go_wst.Stateful.Hub.Defs.{Shard, Hub, empty_shard, new_hub, get_shard}

pos_bounds :
    (z : ℤ) (b : ℕ) → leb_ℤ z (pos 0) ≡ false → z ≤ℤ pos b → (0 < pos_part z) × (pos_part z ≤ b)
pos_bounds (pos n) b e h = ground arith
pos_bounds (negsuc n) b e h = absurd (ground arith)

pub get_shard-returns :
    (h : Hub) (key : String) {s : Shard}
    → get_elem? h.shards (shard_index h.shard_mask key) ≡ some s
    → get_shard h key ≡ returns s
unfolding get_shard
get_shard-returns h key e = rw e refl

-- The hub with one shard replaced.
abbrev pub replaced : Hub → String → Shard → Hub
replaced h key s = record h { shards = set h.shards (shard_index h.shard_mask key) s }

module _ (id : ℕ → String) where
  -- What a shard holds is keyed by connection IDs that the hash sends to this shard.
  pub record IsShard (mask i : ℕ) (s : Shard) : Type 0 where
    pub distinct : Distinct s.connections
    pub index : IsIndex s.user_conns
    pub placed :
        (j : String) (c : ℕ)
        → lookup j s.connections ≡ some c
        → (id c ≡ j) × (shard_index mask j ≡ i)
    pub user_placed :
        (u j : String) (c : ℕ)
        → bound u j s.user_conns ≡ some c
        → (id c ≡ j) × (shard_index mask j ≡ i)

  pub record IsHub (h : Hub) : Type 0 where
    pub log : ℕ
    pub width : h.shard_mask + 1 ≡ 2 ^ log
    pub small : h.shard_mask < 2 ^ 32
    pub full : length h.shards ≡ h.shard_mask + 1
    pub each : (i : ℕ) (s : Shard) → get_elem? h.shards i ≡ some s → IsShard h.shard_mask i s

  empty_shard-IsShard : (mask i : ℕ) → IsShard mask i empty_shard
  unfolding lookup bound
  empty_shard-IsShard mask i = record {
    distinct = tt;
    index = record { distinct = tt; inner = tt };
    placed = λ j c e. absurd (cc);
    user_placed = λ u j c e. absurd (cc);
  }

  make-IsHub :
      (wanted : ℕ)
      → 0 < wanted
      → wanted ≤ 2 ^ 32
      → IsHub (record {
        shards = replicate (next_power_of2 wanted) empty_shard;
        shard_mask = next_power_of2 wanted - 1;
      })
  make-IsHub wanted p q =
      let (k, value, low, least) = next_power_of2-least wanted p q in
      record {
        log = k;
        width = omega arith;
        small = omega (arith, least 32 q);
        full = omega (arith, length-replicate (next_power_of2 wanted) empty_shard);
        each = λ i s e.
            subst (IsShard _ i) (sym (get_elem?-replicate (next_power_of2 wanted) i empty_shard e))
              (empty_shard-IsShard _ i);
      }

  -- `NewHub` makes a valid hub, whatever number of shards up to 2^32 it is asked for.
  pub new_hub-IsHub : (shards : ℤ) → shards ≤ℤ pos (2 ^ 32) → IsHub (new_hub shards)
  unfolding new_hub
  new_hub-IsHub shards h = elim (Bool-cases (leb_ℤ shards (pos 0))) [
    | inl e ↦ rw e (make-IsHub 32 (omega arith) (omega arith))
    | inr e ↦ let (p, q) = pos_bounds shards (2 ^ 32) e h in rw e (make-IsHub (pos_part shards) p q)
  ]

  -- Every key has a shard.
  pub shard_of :
      (h : Hub) (key : String)
      → IsHub h
      → (s : Shard) × (get_elem? h.shards (shard_index h.shard_mask key) ≡ some s)
  shard_of h key v =
      get_elem?_of_lt h.shards (shard_index h.shard_mask key)
        (omega (arith, v.full, shard_index-lt v.log h.shard_mask key v.width v.small))

  pub replaced-IsHub :
      (h : Hub) (key : String) (s : Shard)
      → IsHub h
      → IsShard h.shard_mask (shard_index h.shard_mask key) s
      → IsHub (replaced h key s)
  replaced-IsHub h key s v p = record {
    log = v.log;
    width = v.width;
    small = v.small;
    full = length-set h.shards i s ∙ v.full;
    each = λ j t e. elim (ℕ_discrete i j) [
      | yes same ↦
          subst (λ n. IsShard h.shard_mask n t) same
            (subst (IsShard h.shard_mask i) (written j t same e) p)
      | no other ↦ v.each j t (sym (get_elem?-set_ne h.shards s other) ∙ e)
    ];
  }
    where
      i : ℕ
      i = shard_index h.shard_mask key

      written : (j : ℕ) (t : Shard) → i ≡ j → get_elem? (set h.shards i s) j ≡ some t → s ≡ t
      written j t same e =
          let here : get_elem? (set h.shards i s) i ≡ some s =
            get_elem?-set_self h.shards i s
              (omega (arith, v.full, shard_index-lt v.log h.shard_mask key v.width v.small)) in
          let there : get_elem? (set h.shards i s) i ≡ some t =
            subst (λ n. get_elem? (set h.shards i s) n ≡ some t) (sym same) e in
          cc (sym here ∙ there)
