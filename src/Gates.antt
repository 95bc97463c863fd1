-- ===== src/Gates.antt =====
-- fleet/gates/verify.py: the gate that a task passes before anyone reviews it.
pub mod Patterns
pub mod Reading
pub mod Flattened
pub mod Segments
pub mod Snapshot
pub mod Changes
pub mod Verify
pub mod Checks
pub mod Passing
pub mod Tests
