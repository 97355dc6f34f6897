-- ===== src/Hybrid.antt =====
-- hybrid/: the authenticators, the choice between the two protocols, and the server over both.
pub mod Authenticator
pub mod Config
pub mod Fallback
pub mod Server
pub mod Life
pub mod Serving
pub mod Settings
