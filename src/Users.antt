-- ===== src/Users.antt =====
-- src/bff/user_management.py: the administration of users in Cognito.
pub mod Client
pub mod Handlers
pub mod Membership
pub mod Documented
pub mod Guarded
pub mod Protected
pub mod Administrators
mod Sample
mod Tests
