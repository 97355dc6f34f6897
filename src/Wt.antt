-- ===== src/Wt.antt =====
-- wt/: the WebTransport server.
pub mod Config
pub mod Connection
pub mod Server
pub mod Handler
pub mod Pumps
pub mod Stop
