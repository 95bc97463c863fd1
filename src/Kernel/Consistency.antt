-- ===== src/Kernel/Consistency.antt =====
-- Consistency of the tables, and that every method of the kernel keeps it.
pub mod Attempts
pub mod Defs
pub mod Moves
pub mod Leases
pub mod Creation
pub mod Writes
pub mod Plans
pub mod Histories
