-- ===== src/Tasks.antt =====
-- The tasks of the older chain: fleet/core/state_machine.py and the tasks of fleet/core/db.py.
pub mod States
pub mod Store
pub mod Moves
pub mod Tests
