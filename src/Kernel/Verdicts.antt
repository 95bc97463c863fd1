-- ===== src/Kernel/Verdicts.antt =====
-- What each verdict of `transition` needs, and what it leaves behind.
pub mod Done
pub mod Successor
pub mod Tests
pub mod Applied
