-- ===== src/Prelude/Go.antt =====
-- The outcome of Go code that can stop with a run-time panic.
use mathlib.Core.Option.{Option, none, some}
use mathlib.Core.Bool.{Bool, true, false}

pub data Go {ℓ} (A : Type ℓ) : Type ℓ where
  returns : A → Go A
  panics : Go A

infixl 5 ◌>>=◌
abbrev pub ◌>>=◌ {ℓ κ} : {A : Type ℓ} {B : Type κ} → Go A → (A → Go B) → Go B
returns a >>= f = f a
panics >>= f = panics

-- A read of a slice, which panics out of range.
unfoldable pub checked {ℓ} : {A : Type ℓ} → Option A → Go A
checked none = panics
checked (some a) = returns a

-- `close(ch)` on a channel that is closed already or not.
unfoldable pub close_channel : Bool → Go Bool
close_channel true = panics
close_channel false = returns true
