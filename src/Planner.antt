-- ===== src/Planner.antt =====
-- The planner: fleet/planner/schema.py, fleet/planner/service.py and fleet/planner/steer.py.
pub mod Json
pub mod Schema
pub mod Order
pub mod Ends
pub mod Accepted
pub mod Service
pub mod Writing
pub mod Running
pub mod Steer
pub mod Targets
pub mod Steering
pub mod Tests
