-- ===== src/Buffer.antt =====
-- internal/buffer/pool.go. A buffer is its length and its capacity, which are all that the pool looks
-- at. The package `sync` is outside: `sync.Pool` may forget what it holds at any time, and `Get` takes
-- out any buffer that it holds, or makes a new one.
pub mod Bounds
use go_wst.Prelude.{ℕ, List, [], ◌∷◌, Option, none, some, if◌then◌else◌, ltb, get_elem?}
use go_wst.Prelude.Int.{ℤ, pos, leb_ℤ, pos_part}

abbrev default_buffer_size : ℕ
default_buffer_size = 4096

abbrev pub max_buffer_size : ℕ
max_buffer_size = 65536

pub record Buffer : Type 0 where
  pub len : ℕ
  pub cap : ℕ

-- `make([]byte, n)`
abbrev pub make : ℕ → Buffer
make n = record { len = n; cap = n }

pub record Pool : Type 0 where
  pub pool : List Buffer
  pub init_size : ℕ

unfoldable pub new_pool : ℤ → Pool
new_pool init_size = record {
  pool = [];
  init_size = if leb_ℤ init_size (pos 0) then default_buffer_size else pos_part init_size;
}

unfoldable pub without : ℕ → List Buffer → List Buffer
without i [] = []
without ℕ.zero (b ∷ bs) = bs
without (ℕ.suc i) (b ∷ bs) = b ∷ without i bs

-- `pick` is the place of the buffer that `sync.Pool` takes; where there is none, it makes one.
unfoldable pub get : ℕ → Pool → Pool × Buffer
unfolding without
get pick p = elim (get_elem? p.pool pick) [
  | none ↦ (p, make p.init_size)
  | some buf ↦ (record p { pool = without pick p.pool }, buf)
]

-- The slice is stretched to its capacity.
unfoldable pub put : Buffer → Pool → Pool
put buf p =
    if ltb max_buffer_size buf.cap
    then p
    else record p { pool = record { len = buf.cap; cap = buf.cap } ∷ p.pool }

unfoldable pub get_with_size : ℕ → ℤ → Pool → Pool × Buffer
unfolding get
get_with_size pick size p =
    if leb_ℤ size (pos p.init_size) then get pick p else (p, make (pos_part size))
