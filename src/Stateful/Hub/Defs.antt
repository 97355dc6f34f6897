-- ===== src/Stateful/Hub/Defs.antt =====
-- The state of the hub and its operations. The lock of a shard is held over each whole update, so
-- an operation is one step.
use go_wst.Prelude.{
  ℕ, ◌+◌, ◌-◌, String, str_eq, List, [], ◌∷◌, ◌++◌, Option, get_elem?, ◌==◌, set, replicate, Bool,
  true, false, if◌then◌else◌,
}
use go_wst.Prelude.Int.{ℤ, pos, leb_ℤ, pos_part}
use go_wst.Prelude.Dict.{Dict, lookup, insert, delete, size, values}
use go_wst.Prelude.Go.{Go, returns, checked, ◌>>=◌}
use go_wst.Registry.{UserIndex, bind, unbind, conns_of}
use go_wst.Stateful.PowerOf2.{next_power_of2}
use go_wst.Stateful.Hash.{shard_index}

pub record Shard : Type 0 where
  pub connections : Dict ℕ
  pub user_conns : UserIndex

pub record Hub : Type 0 where
  pub shards : List Shard
  pub shard_mask : ℕ

abbrev pub empty_shard : Shard
empty_shard = record { connections = []; user_conns = [] }

unfoldable pub new_hub : ℤ → Hub
new_hub shards =
    let wanted = if leb_ℤ shards (pos 0) then 32 else pos_part shards in
    let n = next_power_of2 wanted in record { shards = replicate n empty_shard; shard_mask = n - 1 }

unfoldable pub get_shard : Hub → String → Go Shard
unfolding checked
get_shard h key = checked (get_elem? h.shards (shard_index h.shard_mask key))

-- An update of the shard of a key, in place.
unfoldable pub update_shard : Hub → String → (Shard → Shard) → Go Hub
unfolding get_shard
update_shard h key f = do
  s ← get_shard h key
  returns (record h { shards = set h.shards (shard_index h.shard_mask key) (f s) })

module _ (id : ℕ → String) where
  unfoldable pub register : Hub → ℕ → Go Hub
  unfolding update_shard
  register h conn =
      update_shard h (id conn) λ s. record s { connections = insert (id conn) conn s.connections }

  -- `user` is what `conn.UserID()` returns at the call.
  abbrev pub unregister_shard : String → ℕ → Shard → Shard
  unregister_shard user conn s = record s {
    connections = delete (id conn) s.connections;
    user_conns = if str_eq user "" then s.user_conns else unbind user (id conn) s.user_conns;
  }

  unfoldable pub unregister : Hub → String → ℕ → Go Hub
  unfolding update_shard
  unregister h user conn = update_shard h (id conn) (unregister_shard user conn)

  -- The user IDs that the connections carry are state of the connections: `SetUserID` writes one.
  unfoldable pub bind_user : Hub → (ℕ → String) → ℕ → String → Go (Hub × (ℕ → String))
  unfolding update_shard
  bind_user h users conn user = do
    h' ←
        update_shard h (id conn)
          λ s. record s { user_conns = bind user (id conn) conn s.user_conns }
    returns (h', λ c. if c == conn then user else users c)

unfoldable pub get : Hub → String → Go (Option ℕ)
unfolding get_shard
get h conn_id = do s ← get_shard h conn_id; returns (lookup conn_id s.connections)

unfoldable pub get_by_user_from : String → List Shard → List ℕ
get_by_user_from user [] = []
get_by_user_from user (s ∷ rest) = conns_of user s.user_conns ++ get_by_user_from user rest

unfoldable pub get_by_user : Hub → String → List ℕ
get_by_user h user = get_by_user_from user h.shards

unfoldable pub count_from : List Shard → ℕ
count_from [] = 0
count_from (s ∷ rest) = size s.connections + count_from rest

unfoldable pub count : Hub → ℕ
count h = count_from h.shards

-- The callback returns its own state and whether the loop goes on.
module _ {ℓ} {S : Type ℓ} (fn : ℕ → S → S × Bool) where
  -- The loop over one shard; the flag tells that the callback ended the iteration.
  unfoldable pub visit : List ℕ → S → S × Bool
  visit [] st = (st, true)
  visit (c ∷ cs) st =
      let (st', more) = fn c st in let rest = visit cs st' in if more then rest else (st', false)

  unfoldable pub for_each_from : List Shard → S → S × Bool
  unfolding visit
  for_each_from [] st = (st, true)
  for_each_from (s ∷ rest) st =
      let (st', more) = visit (values s.connections) st in
      let later = for_each_from rest st' in if more then later else (st', false)

  unfoldable pub for_each : Hub → S → S
  unfolding for_each_from
  for_each h st = (for_each_from h.shards st).0

pub record ShardStats : Type 0 where
  pub connections : ℕ
  pub users : ℕ

pub record HubStats : Type 0 where
  pub total_connections : ℕ
  pub total_users : ℕ
  pub shard_stats : List ShardStats

unfoldable pub stats_from : HubStats → List Shard → HubStats
stats_from st [] = st
stats_from st (s ∷ rest) =
    stats_from
      (record {
        total_connections = st.total_connections + size s.connections;
        total_users = st.total_users + size s.user_conns;
        shard_stats =
            st.shard_stats
            ++ record { connections = size s.connections; users = size s.user_conns } ∷ [];
      })
      rest

unfoldable pub stats : Hub → HubStats
unfolding stats_from
stats h = stats_from (record { total_connections = 0; total_users = 0; shard_stats = [] }) h.shards
