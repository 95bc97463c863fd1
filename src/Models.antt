-- ===== src/Models.antt =====
-- Requests to a model: fleet/models/retry.py, fleet/models/pool.py and fleet/models/router.py.
pub mod Retry
pub mod Pool
pub mod Router
pub mod Transport
pub mod Prefixes
pub mod Calls
pub mod Candidates
pub mod Chains
pub mod Bindings
pub mod Tests
