-- ===== src/Stateful/Hash.antt =====
-- stateful/hub.go, `getShard`: the hash of a key and the shard that it selects.
use Prim.Native.Char.{code}
use go_wst.Prelude.{ℕ, ◌+◌, ◌*◌, ◌%◌, ◌^◌, ◌<◌, ◌≡◌, bit_and, bit_xor, String, List, [], ◌∷◌, arith}
use go_wst.Prelude.Bits.{bit_and_mask}
use native.Mathlib.Nat.{mod-lt, one-le-pow}

-- `for _, c := range key` goes through the code points.
abbrev pub runes : String → List ℕ
runes String.[] = []
runes (String.◌∷◌ c s) = code c ∷ runes s

-- `hash ^= uint32(c); hash *= 16777619`, on `uint32`
unfoldable pub hash_rune : ℕ → ℕ → ℕ
hash_rune hash c = bit_xor hash (c % 2 ^ 32) * 16777619 % 2 ^ 32

unfoldable pub hash_runes : ℕ → List ℕ → ℕ
unfolding hash_rune
hash_runes hash [] = hash
hash_runes hash (c ∷ cs) = hash_runes (hash_rune hash c) cs

-- `hash & uint32(h.shardMask)`
unfoldable pub shard_index : ℕ → String → ℕ
unfolding hash_runes
shard_index mask key = bit_and (hash_runes 0 (runes key)) (mask % 2 ^ 32)

-- The mask is one below a power of two: the index is the remainder of the hash, so it is below
-- the number of shards.
pub shard_index-lt :
    (k mask : ℕ) (key : String) → mask + 1 ≡ 2 ^ k → mask < 2 ^ 32 → shard_index mask key < mask + 1
unfolding shard_index
shard_index-lt k mask key h small =
    let whole : mask % 2 ^ 32 ≡ mask = omega arith in
    rw (whole, bit_and_mask k (hash_runes 0 (runes key)) mask h, h)
      (mod-lt (hash_runes 0 (runes key)) (one-le-pow k 2 (omega arith)))
