-- ===== src/Tcp.antt =====
-- The TCP half of shero.
pub mod Connection
pub mod Connector
pub mod Acceptor
pub mod Server
pub mod Client
