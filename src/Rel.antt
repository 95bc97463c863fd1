-- ===== src/Rel.antt =====
-- fleet/rel: what watches over tasks that hang, and over the console.
pub mod RetryTimer
pub mod Stuck
pub mod Watchdog
pub mod Storms
pub mod Tests
