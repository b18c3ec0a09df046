-- ===== src/Base.antt =====
-- shero/base: timers and logging.
pub mod Timer
pub mod Util
pub mod Log
pub mod Mutex
pub mod Config
pub mod Thread
