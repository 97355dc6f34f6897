-- ===== src/Stateless.antt =====
-- stateless/: the polling mode, its message store in memory and its server.
pub mod Store
pub mod Server
pub mod Handler
