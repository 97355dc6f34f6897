-- ===== src/Registry.antt =====
-- The two maps that each server and each shard of the hub keeps: connections by identifier, and
-- the user index `map[string]map[string]Connection` (user -> connection ID -> connection).
-- A connection is a pointer, here a number; what it points at is state of its owner.
mod Defs
mod Laws
mod Listing
mod Mirror
mod Counting
unfoldable pub use Defs.{bound, bind, unbind, conns_of}
pub use Defs.{UserIndex, IsIndex}
pub use Laws.*
unfoldable pub use Listing.{listed_conns}
pub use Listing.{In-listed_conns}
pub use Mirror.*
pub use Counting.*
