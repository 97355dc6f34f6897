-- ===== src/Protocol/Server.antt =====
-- internal/protocol/connection.go: the interface `Server`, as operations on a server `V` and the state
-- `S` that sending and visiting change, and what it promises.
pub mod Uses
pub mod Indexed
use go_wst.Prelude.{
  ℕ, ◌≡◌, String, List, [], ◌∷◌, ◌++◌, Option, none, some, Bool, if◌then◌else◌, In, ◌↔◌,
}
use go_wst.Prelude.Int.{ℤ}

-- Sending is of one message, which is not named; `protocol` is `Protocol()`.
pub record Servers (V S E : Type 0) : Type 0 where
  pub broadcast : V → S → S × Option E
  pub broadcast_to : V → List String → S → S × Option E
  pub send_to : V → String → S → S × Option E
  pub get_connection : V → String → Option ℕ
  pub get_connections : V → List String → List ℕ
  pub connection_count : V → ℤ
  pub for_each_connection : (ℕ → S → S × Bool) → V → S → S
  pub protocol : String

abbrev with_error : {E : Type 0} → Option E → List E → List E
with_error none es = es
with_error (some e) es = e ∷ es

abbrev pub last_or : {E : Type 0} → Option E → List E → Option E
last_or e [] = e
last_or e (f ∷ fs) = last_or (some f) fs

-- What sending to a list of connections, one after the other, comes to: the state at the end, and
-- the last of the errors.
module _ {S E : Type 0} (send : ℕ → S → S × Option E) where
  abbrev pub after_sends : List ℕ → S → S
  after_sends [] st = st
  after_sends (c ∷ cs) st = after_sends cs (send c st).0

  abbrev pub errors : List ℕ → S → List E
  errors [] st = []
  errors (c ∷ cs) st = with_error (send c st).1 (errors cs (send c st).0)

  abbrev pub sent : List ℕ → S → S × Option E
  sent cs st = (after_sends cs st, last_or none (errors cs st))

-- A visit goes on while the callback says so.
abbrev pub visited : {S : Type 0} → (ℕ → S → S × Bool) → List ℕ → S → S
visited fn [] st = st
visited fn (c ∷ cs) st =
    let rest = visited fn cs (fn c st).0 in if (fn c st).1 then rest else (fn c st).0

abbrev pub each_of : (String → List ℕ) → List String → List ℕ
each_of of_user [] = []
each_of of_user (u ∷ us) = of_user u ++ each_of of_user us

abbrev pub first_of : List ℕ → Option ℕ
first_of [] = none
first_of (c ∷ cs) = some c

abbrev pub or_missing : {S E : Type 0} → E → S → List ℕ → S × Option E → S × Option E
or_missing not_found st [] r = (st, some not_found)
or_missing not_found st (c ∷ cs) r = r

-- A server has its connections by ID, and by user and ID. In a valid state it is two lists, which hold
-- just these: all of its connections, and those of each user. Every operation is what the lists say,
-- and a user without connections is not found.
pub record IsServer {V S E : Type 0} (ops : Servers V S E) (send : ℕ → S → S × Option E)
    (not_found : E) (connection_of : V → String → Option ℕ)
    (user_connection_of : V → String → String → Option ℕ) (IsValid : V → Type 0) : Type 0 where
  pub all : V → List ℕ
  pub of_user : V → String → List ℕ
  pub all_iff :
      (v : V) (c : ℕ) → IsValid v → In c (all v) ↔ ((id : String) × (connection_of v id ≡ some c))
  pub of_user_iff :
      (v : V) (u : String) (c : ℕ)
      → IsValid v
      → In c (of_user v u) ↔ ((id : String) × (user_connection_of v u id ≡ some c))
  pub broadcast_lem : (v : V) (st : S) → ops.broadcast v st ≡ sent send (all v) st
  pub broadcast_to_lem :
      (v : V) (us : List String) (st : S)
      → ops.broadcast_to v us st ≡ sent send (each_of (of_user v) us) st
  pub send_to_lem :
      (v : V) (u : String) (st : S)
      → IsValid v
      → ops.send_to v u st ≡ or_missing not_found st (of_user v u) (sent send (of_user v u) st)
  pub get_connection_lem : (v : V) (u : String) → ops.get_connection v u ≡ first_of (of_user v u)
  pub get_connections_lem :
      (v : V) (us : List String) → ops.get_connections v us ≡ each_of (of_user v) us
  pub for_each_connection_lem :
      (fn : ℕ → S → S × Bool) (v : V) (st : S)
      → ops.for_each_connection fn v st ≡ visited fn (all v) st
