-- ===== src/Tests.antt =====
-- The theorems at concrete inputs.
mod Hub
mod Polling
mod WebSocket
mod WebTransport
mod Hybrid
mod WsPumps
mod WtPumps
mod Chat
mod Buffer
mod Notification
mod Certificates
mod WtStop
mod HybridServing
mod Authhook
mod WsLife
mod Servers
mod HybridLife
