-- ===== src/Manager.antt =====
-- The older chain of fleet/manager: the graph of dependencies, and what may be handed out.
pub mod Cycles
pub mod Sorting
pub mod Rounds
pub mod Starting
pub mod Ranks
pub mod Acyclic
pub mod Ready
pub mod Offers
pub mod Readiness
pub mod Tests
