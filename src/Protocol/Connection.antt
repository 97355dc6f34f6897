-- ===== src/Protocol/Connection.antt =====
-- internal/protocol/connection.go: the interface `Connection`, as operations on the state `S` of
-- the connections, and what its users rely on. A connection is a pointer, here a number.
use go_wst.Prelude.{ℕ, ◌≡◌, String, str_eq, Option, some, ◌==◌, ◌&&◌, if◌then◌else◌}
use go_wst.Prelude.Dict.{Dict, lookup}
use go_wst.Protocol.Message.{Bytes}
use go_wst.Protocol.Value.{Any}

-- The methods that a connection handler calls, on the background context. A method that stops with
-- an error returns its text.
pub record Connections (S : Type 0) : Type 0 where
  pub user_id : ℕ → S → String
  pub set_user_id : ℕ → String → S → S
  pub metadata : ℕ → S → Dict Any
  pub set_metadata : ℕ → String → Any → S → S
  pub send : ℕ → Bytes → S → S × Option String

-- What is set is what is read, on that connection alone, and a message that is sent changes neither.
-- The laws hold in the states that are valid, which no method leaves.
pub record IsLawful {S : Type 0} (conns : Connections S) : Type 1 where
  pub IsValid : S → Type 0
  pub set_user_id-IsValid :
      (c : ℕ) (u : String) (s : S) → IsValid s → IsValid (conns.set_user_id c u s)
  pub set_metadata-IsValid :
      (c : ℕ) (k : String) (v : Any) (s : S) → IsValid s → IsValid (conns.set_metadata c k v s)
  pub send-IsValid : (c : ℕ) (msg : Bytes) (s : S) → IsValid s → IsValid (conns.send c msg s).0
  pub user_id-set_user_id :
      (d c : ℕ) (u : String) (s : S)
      → IsValid s
      → conns.user_id d (conns.set_user_id c u s) ≡ (if d == c then u else conns.user_id d s)
  pub user_id-set_metadata :
      (d c : ℕ) (k : String) (v : Any) (s : S)
      → IsValid s
      → conns.user_id d (conns.set_metadata c k v s) ≡ conns.user_id d s
  pub user_id-send :
      (d c : ℕ) (msg : Bytes) (s : S)
      → IsValid s
      → conns.user_id d (conns.send c msg s).0 ≡ conns.user_id d s
  pub metadata-set_user_id :
      (d c : ℕ) (u : String) (s : S)
      → IsValid s
      → conns.metadata d (conns.set_user_id c u s) ≡ conns.metadata d s
  pub metadata-set_metadata :
      (d c : ℕ) (k j : String) (v : Any) (s : S)
      → IsValid s
      → lookup j (conns.metadata d (conns.set_metadata c k v s))
        ≡ (if d == c && str_eq k j then some v else lookup j (conns.metadata d s))
  pub metadata-send :
      (d c : ℕ) (msg : Bytes) (s : S)
      → IsValid s
      → conns.metadata d (conns.send c msg s).0 ≡ conns.metadata d s
