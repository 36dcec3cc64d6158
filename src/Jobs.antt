-- ===== src/Jobs.antt =====
-- src/bff/postgres/job_repository.py and its clients: durable jobs on PostgreSQL.
pub mod Schema
pub mod Errors
pub mod Events
pub mod Enqueue
pub mod Claim
pub mod Finish
pub mod Expire
pub mod Outbox
pub mod Worker
pub mod Retire
pub mod Machine
pub mod Refines
pub mod Invariant
pub mod Advances
pub mod System
pub mod History
pub mod Samples
pub mod Tests
pub mod RunTests
