-- ===== src/Kernel.antt =====
-- fleet/kernel/.
pub mod State
pub mod Tables
pub mod Sql
pub mod Goals
pub mod Quota
pub mod Lease
pub mod Writeback
pub mod Steer
pub mod Reads
pub mod Views
pub mod Claimable
pub mod Expiry
pub mod Race
pub mod Billing
pub mod Verdicts
pub mod Tests
pub mod Machine
pub mod Consistency
pub mod Lifecycle
