-- ===== src/Protocol/Message.antt =====
-- internal/protocol/connection.go: messages and requests of the stateless mode, and the interface
-- of a message store. A byte is a number, an `int64` or `int` an integer.
use go_wst.Prelude.{ℕ, String, List}
use go_wst.Prelude.Int.{ℤ}
use go_wst.Prelude.Result.{Result}

abbrev pub Bytes : Type 0
Bytes = List ℕ

pub record Message : Type 0 where
  pub id : ℤ
  pub timestamp : ℤ
  pub kind : String
  pub topic : String
  pub payload : Bytes

pub record FetchRequest : Type 0 where
  pub user_id : String
  pub since_id : ℤ
  pub limit : ℤ
  pub topic : String

pub record SendRequest : Type 0 where
  pub user_id : String
  pub topic : String
  pub payload : Bytes

-- `protocol.MessageStore`: operations on the store's own state; an error is a text.
pub record MessageStore (S : Type 0) : Type 0 where
  pub fetch : S → String → ℤ → ℤ → Result String (List Message)
  pub ack : S → String → ℤ → Result String S
  pub store : S → String → Message → Result String S
