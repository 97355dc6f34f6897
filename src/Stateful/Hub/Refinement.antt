-- ===== src/Stateful/Hub/Refinement.antt =====
-- stateful/hub.go: the hub against its abstract view, two maps without shards. A history of calls
-- is run on both.
use go_wst.Prelude.{
  ℕ, ◌^◌, ◌≡◌, refl, ap, ◌∙◌, String, str_eq, ◌&&◌, not, List, [], ◌∷◌, Option, none, some,
  if◌then◌else◌, ◌==◌, arith, get_elem?, get_elem?-replicate,
}
use go_wst.Prelude.Int.{ℤ, pos, ◌≤ℤ◌}
use go_wst.Prelude.Dict.{lookup}
use go_wst.Prelude.Go.{Go, returns, ◌>>=◌}
use go_wst.Registry.{bound}
use go_wst.Stateful.Hub.Defs.{
  Shard, Hub, empty_shard, new_hub, get_shard, register, unregister, bind_user, get,
}
use go_wst.Stateful.Hub.Invariant.{IsHub, new_hub-IsHub, shard_of, get_shard-returns}
use go_wst.Stateful.Hub.Lookup.{get_bound, register_lem, unregister_lem, bind_user_lem}

-- What a client of the hub can rely on: the connection under each ID, the connection that is bound
-- to each pair of a user and an ID, and the user that each connection carries.
pub record View : Type 0 where
  pub conns : String → Option ℕ
  pub bindings : String → String → Option ℕ
  pub users : ℕ → String

-- `names_user` is a call of `SetUserID` on a connection from outside the hub.
pub data Call : Type 0 where
  registers : ℕ → Call
  unregisters : ℕ → Call
  binds : ℕ → String → Call
  names_user : ℕ → String → Call

abbrev pub empty_view : (ℕ → String) → View
empty_view users = record { conns = λ j. none; bindings = λ u j. none; users = users }

module _ (id : ℕ → String) where
  -- A call on the view. Unregistering looks at the user that the connection carries at that time.
  unfoldable pub replay_call : Call → View → View
  replay_call (registers c) v = record v {
    conns = λ j. if str_eq (id c) j then some c else v.conns j;
  }
  replay_call (unregisters c) v = record v {
    conns = λ j. if str_eq (id c) j then none else v.conns j;
    bindings = λ u j.
        if not (str_eq (v.users c) "") && (str_eq (v.users c) u && str_eq (id c) j)
        then none
        else v.bindings u j;
  }
  replay_call (binds c user) v = record v {
    bindings = λ u j. if str_eq user u && str_eq (id c) j then some c else v.bindings u j;
    users = λ d. if d == c then user else v.users d;
  }
  replay_call (names_user c user) v = record v { users = λ d. if d == c then user else v.users d }

  unfoldable pub replay : List Call → View → View
  unfolding replay_call
  replay [] v = v
  replay (call ∷ calls) v = replay calls (replay_call call v)

  -- The same call on the hub and the users that the connections carry.
  unfoldable pub run_call : Call → Hub → (ℕ → String) → Go (Hub × (ℕ → String))
  unfolding register unregister bind_user
  run_call (registers c) h users = do h' ← register id h c; returns (h', users)
  run_call (unregisters c) h users = do h' ← unregister id h (users c) c; returns (h', users)
  run_call (binds c user) h users = bind_user id h users c user
  run_call (names_user c user) h users = returns (h, λ d. if d == c then user else users d)

  unfoldable pub run : List Call → Hub → (ℕ → String) → Go (Hub × (ℕ → String))
  unfolding run_call
  run [] h users = returns (h, users)
  run (call ∷ calls) h users = do (h', users') ← run_call call h users; run calls h' users'

  -- A valid hub that answers every lookup as the view does.
  pub record Implements (v : View) (h : Hub) (users : ℕ → String) : Type 0 where
    pub valid : IsHub id h
    pub conns_same : (j : String) → get h j ≡ returns (v.conns j)
    pub bindings_same : (u j : String) → get_bound h u j ≡ returns (v.bindings u j)
    pub users_same : (c : ℕ) → users c ≡ v.users c

  run_call-Implements :
      (call : Call) (v : View) (h : Hub) (users : ℕ → String)
      → Implements v h users
      → (r : Hub × (ℕ → String)) × (run_call call h users ≡ returns r)
        × Implements (replay_call call v) r.0 r.1
  unfolding run_call replay_call
  run_call-Implements (registers c) v h users m =
      let (h', done, valid, conns, bindings) = register_lem id h c m.valid in
      (
        (h', users),
        rw done,
        record {
          valid = valid;
          conns_same = λ j. ground (arith, conns j, m.conns_same j);
          bindings_same = λ u j. bindings u j ∙ m.bindings_same u j;
          users_same = m.users_same;
        },
      )
  run_call-Implements (unregisters c) v h users m =
      let (h', done, valid, conns, bindings) = unregister_lem id h (users c) c m.valid in
      (
        (h', users),
        rw done,
        record {
          valid = valid;
          conns_same = λ j. ground (arith, conns j, m.conns_same j);
          bindings_same = λ u j. ground (arith, bindings u j, m.bindings_same u j, m.users_same c);
          users_same = m.users_same;
        },
      )
  run_call-Implements (binds c user) v h users m =
      let (h', users', done, valid, named, conns, bindings) =
        bind_user_lem id h users c user m.valid in
      (
        (h', users'),
        done,
        record {
          valid = valid;
          conns_same = λ j. conns j ∙ m.conns_same j;
          bindings_same = λ u j. ground (arith, bindings u j, m.bindings_same u j);
          users_same = λ d. ground (arith, named d, m.users_same d);
        },
      )
  run_call-Implements (names_user c user) v h users m = (
    (h, λ d. if d == c then user else users d),
    refl,
    record {
      valid = m.valid;
      conns_same = m.conns_same;
      bindings_same = m.bindings_same;
      users_same = λ d. ground (arith, m.users_same d);
    },
  )

  -- From a hub that implements a view, any calls run with no panic to one that implements the
  -- view after the same calls.
  pub run-Implements :
      (calls : List Call) (v : View) (h : Hub) (users : ℕ → String)
      → Implements v h users
      → (r : Hub × (ℕ → String)) × (run calls h users ≡ returns r)
        × Implements (replay calls v) r.0 r.1
  unfolding run replay
  run-Implements [] v h users m = ((h, users), refl, m)
  run-Implements (call ∷ calls) v h users m =
      let (r, done, m') = run_call-Implements call v h users m in
      let (r', done', m'') = run-Implements calls (replay_call call v) r.0 r.1 m' in
      (r', rw done done', m'')

  -- Every shard of a new hub is empty.
  new_hub-shard :
      (shards : ℤ) (i : ℕ) {s : Shard}
      → get_elem? (new_hub shards).shards i ≡ some s
      → s ≡ empty_shard
  unfolding new_hub
  new_hub-shard shards i e = get_elem?-replicate _ i empty_shard e

  get_shard-new_hub :
      (shards : ℤ) (key : String)
      → IsHub id (new_hub shards)
      → get_shard (new_hub shards) key ≡ returns empty_shard
  get_shard-new_hub shards key v =
      let (s, e) = shard_of id (new_hub shards) key v in
      get_shard-returns (new_hub shards) key e ∙ ap returns (new_hub-shard shards _ e)

  new_hub-Implements :
      (shards : ℤ) (users : ℕ → String)
      → shards ≤ℤ pos (2 ^ 32)
      → Implements (empty_view users) (new_hub shards) users
  unfolding get get_bound lookup bound
  new_hub-Implements shards users h =
      let valid : IsHub id (new_hub shards) = new_hub-IsHub id shards h in
      record {
        valid = valid;
        conns_same = λ j. rw (get_shard-new_hub shards j valid);
        bindings_same = λ u j. rw (get_shard-new_hub shards j valid);
        users_same = λ c. refl;
      }

  -- After any calls on a new hub of up to 2^32 shards, none of which panics, every lookup answers as
  -- in the abstract view after the same calls; the number of shards cannot be seen.
  pub run-new_hub :
      (shards : ℤ) (users : ℕ → String) (calls : List Call)
      → shards ≤ℤ pos (2 ^ 32)
      → (r : Hub × (ℕ → String)) × (run calls (new_hub shards) users ≡ returns r)
        × Implements (replay calls (empty_view users)) r.0 r.1
  run-new_hub shards users calls h =
      run-Implements calls (empty_view users) (new_hub shards) users
        (new_hub-Implements shards users h)
