-- ===== src/Governance/Holds.antt =====
-- `GovernanceRepository` of src/bff/postgres/governance_repository.py on the tables of
-- alembic/versions/0001 and 0006, and `retention_dry_run` of src/bff/postgres/governance_routes.py.
-- A UUID is its canonical text. Checksums are left out, and so are restore verifications and data
-- subject requests, which nothing here reads.
pub mod Schema
pub mod Policies
pub mod Lifetime
pub mod DryRun
pub mod Operations
pub mod Kept
pub mod Constraints
pub mod Checked
pub mod Sound
pub mod References
mod Tests
