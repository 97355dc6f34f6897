-- ===== src/Stateful.antt =====
-- stateful/: the sharded hub of connections and the heartbeat.
pub mod PowerOf2
pub mod Hash
pub mod Hub
pub mod Heartbeat
