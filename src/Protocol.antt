-- ===== src/Protocol.antt =====
-- internal/protocol/ and protocol/: the types that the servers share. protocol/protocol.go only
-- gives these types a public name.
pub mod Message
pub mod Value
pub mod Connection
pub mod Server
pub mod Wrapper
pub mod Metadata
pub mod Codec
pub mod Auth
