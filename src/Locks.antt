-- ===== src/Locks.antt =====
-- The locks of src/scrapers/shop_dashboard/lock_manager.py and src/shared/idempotency.py.
pub mod Script
pub mod Manager
pub mod Store
pub mod Running
pub mod Backing
pub mod Exclusion
pub mod Race
pub mod Idempotency
pub mod Tasks
pub mod TaskStore
pub mod Results
mod Tests
mod TaskTests
