-- ===== src/Governance.antt =====
-- src/governance/retention.py: retention policies, holds, retention plans and the authorization of
-- deletions.
pub mod Policy
pub mod Retention
pub mod Deletion
pub mod Plans
pub mod Lifecycle
pub mod Lookup
pub mod Holds
pub mod Tests
