-- ===== src/Ws.antt =====
-- ws/: the WebSocket server.
pub mod Connection
pub mod Server
pub mod Handler
pub mod Pumps
pub mod Life
