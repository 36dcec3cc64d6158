-- ===== src/Security.antt =====
-- src/bff/security.py and src/bff/postgres/idempotency_repository.py: authentication, roles, rate
-- limits and idempotency keys.
pub mod RateLimit
pub mod Roles
pub mod Claims
pub mod Access
pub mod Idempotency
pub mod Tests
pub mod AccessTests
