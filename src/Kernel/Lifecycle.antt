-- ===== src/Kernel/Lifecycle.antt =====
-- The life of a todo, over every history of calls.
pub mod Defs
pub mod Leases
pub mod Creation
pub mod Writes
pub mod Plans
pub mod Edges
pub mod Steps
pub mod Histories
