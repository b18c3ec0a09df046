-- ===== src/Net.antt =====
-- The reactor of shero: channels and the poller.
pub mod Channel
pub mod Poller
pub mod ThreadPool
pub mod EventLoop
pub mod Socket
pub mod Address
pub mod Uri
