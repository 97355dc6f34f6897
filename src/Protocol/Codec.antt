-- ===== src/Protocol/Codec.antt =====
-- internal/protocol/codec.go: the raw codec. The conversions between a text and its bytes are those
-- of the language; the JSON codec only calls `encoding/json`.
use Prim.Native.String.{◌++◌ as text_append}
use go_wst.Prelude.{◌≡◌, refl, ap, ◌∙◌, String}
use go_wst.Prelude.Result.{Result, ok, err}
use go_wst.Protocol.Message.{Bytes}
use go_wst.Protocol.Value.{Any, str, int, bytes, other}

-- What the pointer that `Unmarshal` is given points at.
pub data Target : Type 0 where
  to_bytes to_text to_other : Target

abbrev pub raw_codec_name : String
raw_codec_name = "raw"

ok_inv : {x y : Bytes} {r : Result String Bytes} → r ≡ ok x → r ≡ ok y → x ≡ y
ok_inv p q = cc

-- `type_name` is what `%T` prints.
module _ (text_bytes : String → Bytes) (bytes_text : Bytes → String)
    (type_name : Any → String) where
  unfoldable pub raw_marshal : Any → Result String Bytes
  raw_marshal (bytes msg) = ok msg
  raw_marshal (str msg) = ok (text_bytes msg)
  raw_marshal v = err (text_append "raw codec: unsupported type " (type_name v))

  unfoldable pub raw_unmarshal : Bytes → Target → Result String Any
  raw_unmarshal payload to_bytes = ok (bytes payload)
  raw_unmarshal payload to_text = ok (str (bytes_text payload))
  raw_unmarshal payload to_other = err "raw codec: unsupported type"

  abbrev target_of : Any → Target
  target_of (bytes msg) = to_bytes
  target_of (str msg) = to_text
  target_of v = to_other

  -- What the raw codec encodes it decodes again, to a pointer of the same type.
  raw_unmarshal-raw_marshal :
      (v : Any) (payload : Bytes)
      → ((s : String) → bytes_text (text_bytes s) ≡ s)
      → raw_marshal v ≡ ok payload
      → raw_unmarshal payload (target_of v) ≡ ok v
  unfolding raw_marshal raw_unmarshal
  raw_unmarshal-raw_marshal (bytes msg) payload back e = ap (λ x. ok (bytes x)) (ok_inv e refl)
  raw_unmarshal-raw_marshal (str msg) payload back e =
      ap (λ x. ok (str (bytes_text x))) (ok_inv e refl) ∙ ap (λ x. ok (str x)) (back msg)
  raw_unmarshal-raw_marshal (int n) payload back e = absurd (cc)
  raw_unmarshal-raw_marshal other payload back e = absurd (cc)
