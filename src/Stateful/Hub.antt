-- ===== src/Stateful/Hub.antt =====
-- stateful/hub.go: the hub of connections, sharded by a hash of the connection ID. A connection is
-- a pointer, here a number; `id` gives the ID that its object was made with and never changes.
-- `returns` and `panics` tell whether an access to the slice of shards is in range.
pub mod Defs
pub mod Invariant
mod Shards
pub mod Lookup
pub mod Listing
pub mod Counting
pub mod Refinement
