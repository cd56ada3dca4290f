-- ===== src/Auth.antt =====
-- Authorisation: src/auth/rbac.py over the tables of src/auth/models.py and the audit log of
-- src/audit/service.py, in a session of src/session.py.
pub mod Permission
pub mod Grants
pub mod Tables
pub mod Check
pub mod Audit
pub mod Session
pub mod Guard
pub mod Outcomes
pub mod Holds
mod Tests
