-- ===== src/Plan.antt =====
-- The plan of a collection: src/application/collection/plan_builder_impl.py and the shop ids of
-- src/shared/shop_ids.py.
pub mod Calendar
pub mod Moments
pub mod Windows
pub mod Months
pub mod Backfill
pub mod Shops
pub mod Config
pub mod Build
pub mod Units
mod Tests
