-- ===== src/Registry/Defs.antt =====
-- The user index: ws/server.go, `BindUser` and `unregisterConnection`; the other servers and the
-- hub repeat the same statements.
use go_wst.Prelude.{ℕ, ◌<◌, ◌==◌, if◌then◌else◌, String, Option, none, some, List, []}
use go_wst.Prelude.Dict.{Dict, lookup, insert, delete, size, values, Distinct, EveryEntry}

abbrev pub UserIndex : Type 0
UserIndex = Dict (Dict ℕ)

-- `userConns[u][id]`
unfoldable pub bound : String → String → UserIndex → Option ℕ
bound u id m = elim (lookup u m) [ none ↦ none | some conns ↦ lookup id conns ]

-- The inner map is made when the user has none.
unfoldable pub bind : String → String → ℕ → UserIndex → UserIndex
bind u id c m = elim (lookup u m) [
  | none ↦ insert u (insert id c []) m
  | some conns ↦ insert u (insert id c conns) m
]

-- The inner map is dropped when its last connection goes.
unfoldable pub unbind : String → String → UserIndex → UserIndex
unbind u id m = elim (lookup u m) [
  | none ↦ m
  | some conns ↦ if size (delete id conns) == 0 then delete u m else insert u (delete id conns) m
]

-- What a loop over `userConns[u]` goes through; nothing where the user is missing.
unfoldable pub conns_of : String → UserIndex → List ℕ
conns_of u m = elim (lookup u m) [ none ↦ [] | some conns ↦ values conns ]

-- Each map holds a key once, and no user has an empty map.
pub record IsIndex (m : UserIndex) : Type 0 where
  pub distinct : Distinct m
  pub inner : EveryEntry (λ _ conns. Distinct conns × (0 < size conns)) m
