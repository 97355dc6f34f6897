-- ===== src/Stateful/Hub/Counting.antt =====
-- stateful/hub.go: `Count` and `Stats`, and how registering and unregistering change them.
use go_wst.Prelude.{
  ℕ, zero, suc, ◌+◌, ◌≡◌, String, List, [], ◌∷◌, ◌++◌, none, some, get_elem?, set, arith, map,
  Option, none, some,
}
use mathlib.Core.List.{append-nil, append_assoc}
use go_wst.Prelude.Dict.{insert, size, has, size-insert, size-delete}
use go_wst.Prelude.Go.{returns}
use go_wst.Stateful.Hash.{shard_index}
use go_wst.Stateful.Hub.Defs.{
  Shard, Hub, register, unregister, unregister_shard, get, count, count_from, stats, stats_from,
  HubStats, ShardStats,
}
use go_wst.Stateful.Hub.Invariant.{IsHub, shard_of, get_shard-returns, replaced}

count_from-set :
    (shards : List Shard) (i : ℕ) {s : Shard} (t : Shard)
    → get_elem? shards i ≡ some s
    → count_from (set shards i t) + size s.connections ≡ count_from shards + size t.connections
unfolding count_from
count_from-set [] i t e = cc
count_from-set (x ∷ rest) zero {s} t e = let same : x ≡ s = cc in rw same (omega arith)
count_from-set (x ∷ rest) (suc i) t e = omega (arith, count_from-set rest i t e)

-- How many connections a lookup finds.
abbrev pub held : Option ℕ → ℕ
held none = 0
held (some c) = 1

module _ (id : ℕ → String) (h : Hub) (conn : ℕ) (v : IsHub id h) where
  count-register_cases :
      {h' : Hub}
      → register id h conn ≡ returns h'
      → (get h (id conn) ≡ returns none → count h' ≡ count h + 1)
        × ((c : ℕ) → get h (id conn) ≡ returns (some c) → count h' ≡ count h)
  unfolding register count get has
  count-register_cases {h'} q =
      let (s, e) = shard_of id h (id conn) v in
      let new : Shard = record s { connections = insert (id conn) conn s.connections } in
      let made : replaced h (id conn) new ≡ h' = ground (arith, get_shard-returns h (id conn) e) in
      let sum = count_from-set h.shards (shard_index h.shard_mask (id conn)) new e in
      rw (← made) (
        (λ absent. ground (
          arith,
          sum,
          get_shard-returns h (id conn) e,
          size-insert (id conn) conn s.connections,
        )),
        (λ c present. ground (
          arith,
          sum,
          get_shard-returns h (id conn) e,
          size-insert (id conn) conn s.connections,
        )),
      )

  count-unregister_cases :
      (user : String) {h' : Hub}
      → unregister id h user conn ≡ returns h'
      → (get h (id conn) ≡ returns none → count h' ≡ count h)
        × ((c : ℕ) → get h (id conn) ≡ returns (some c) → count h' + 1 ≡ count h)
  unfolding unregister count get has
  count-unregister_cases user {h'} q =
      let (s, e) = shard_of id h (id conn) v in
      let new : Shard = unregister_shard id user conn s in
      let made : replaced h (id conn) new ≡ h' = ground (arith, get_shard-returns h (id conn) e) in
      let sum = count_from-set h.shards (shard_index h.shard_mask (id conn)) new e in
      let less = size-delete (id conn) s.connections (v.each _ s e).distinct in
      rw (← made) (
        (λ absent. ground (arith, sum, less, get_shard-returns h (id conn) e)),
        (λ c present. ground (arith, sum, less, get_shard-returns h (id conn) e)),
      )

  -- In a valid hub registering counts one more connection exactly when the ID is new.
  count-register :
      (found : Option ℕ) {h' : Hub}
      → get h (id conn) ≡ returns found
      → register id h conn ≡ returns h'
      → count h' + held found ≡ count h + 1
  count-register none e q = omega (arith, (count-register_cases q).0 e)
  count-register (some c) e q = omega (arith, (count-register_cases q).1 c e)

  -- In a valid hub unregistering counts one connection less exactly when the hub holds the ID.
  count-unregister :
      (user : String) (found : Option ℕ) {h' : Hub}
      → get h (id conn) ≡ returns found
      → unregister id h user conn ≡ returns h'
      → count h' + held found ≡ count h
  count-unregister user none e q = omega (arith, (count-unregister_cases user q).0 e)
  count-unregister user (some c) e q = omega (arith, (count-unregister_cases user q).1 c e)

unfoldable sum_users : List Shard → ℕ
sum_users [] = 0
sum_users (s ∷ rest) = size s.user_conns + sum_users rest

abbrev shard_stats_of : Shard → ShardStats
shard_stats_of s = record { connections = size s.connections; users = size s.user_conns }

stats_from_lem :
    (st : HubStats) (shards : List Shard)
    → stats_from st shards ≡ record {
      total_connections = st.total_connections + count_from shards;
      total_users = st.total_users + sum_users shards;
      shard_stats = st.shard_stats ++ map shard_stats_of shards;
    }
unfolding stats_from count_from sum_users
stats_from_lem st [] = ground (arith, append-nil st.shard_stats)
stats_from_lem st (s ∷ rest) = ground (
  arith,
  stats_from_lem
      (record {
        total_connections = st.total_connections + size s.connections;
        total_users = st.total_users + size s.user_conns;
        shard_stats = st.shard_stats ++ shard_stats_of s ∷ [];
      })
      rest,
  append_assoc st.shard_stats (shard_stats_of s ∷ []) (map shard_stats_of rest),
)

-- `Stats` reports each shard in order, as many connections in total as `Count` returns, and as
-- users in total the sum over the shards: a user with connections in two shards counts twice.
stats_lem :
    (h : Hub)
    → ((stats h).total_connections ≡ count h)
      × ((stats h).total_users ≡ sum_users h.shards)
      × ((stats h).shard_stats ≡ map shard_stats_of h.shards)
unfolding stats count
stats_lem h = ground (
  arith,
  stats_from_lem (record { total_connections = 0; total_users = 0; shard_stats = [] }) h.shards,
)
