-- ===== src/Protocol/Value.antt =====
-- Go's `any`, as far as the library looks into it.
use go_wst.Prelude.{String}
use go_wst.Prelude.Int.{ℤ}
use go_wst.Protocol.Message.{Bytes}

pub data Any : Type 0 where
  str : String → Any
  int : ℤ → Any
  bytes : Bytes → Any
  other : Any
