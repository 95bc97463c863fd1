-- ===== src/Governance.antt =====
-- Budgets and approvals: fleet/governance/budget.py and fleet/governance/approval.py over the tables of
-- fleet/governance/store.py.
pub mod Budget
pub mod Spending
pub mod Checks
pub mod Approvals
pub mod Decisions
pub mod Expiry
pub mod Tests
