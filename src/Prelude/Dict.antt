-- ===== src/Prelude/Dict.antt =====
-- Go's maps with string keys, as association lists. The order of the list stands for the order in
-- which one `range` over the map goes, which Go leaves open: what is proved holds for every order.
mod Defs
mod Laws
unfoldable pub use Defs.{lookup, insert, delete, size, values, has}
pub use Defs.{Dict, Distinct, EveryEntry}
pub use Laws.*
