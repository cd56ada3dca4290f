-- ===== src/Tasks.antt =====
-- Task definitions and their executions: src/domains/task, the shop selection of
-- src/scrapers/shop_dashboard/shop_selection_validator.py and the status of executions of
-- src/tasks/status_store.py.
pub mod Selection
pub mod Tables
pub mod Service
pub mod Run
pub mod Valid
pub mod Outcome
pub mod Single
pub mod Status
pub mod Synced
pub mod Selected
mod Tests
pub mod Kept
pub mod Reach
