-- ===== src/WebSocket.antt =====
-- The WebSocket half of shero: frames (WSStructure), the server and the client.
pub mod Frame
pub mod Handshake
pub mod Exchange
pub mod Server
pub mod Client
