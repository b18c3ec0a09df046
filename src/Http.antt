-- ===== src/Http.antt =====
-- The HTTP half of shero: messages, the request parser, the server and the client.
pub mod Status
pub mod Headers
pub mod Message
pub mod Parser
pub mod Server
pub mod Client
