-- ===== src/Cache.antt =====
-- The in-memory cache of src/cache/local.py.
pub mod Local
pub mod Bounds
pub mod Lookup
pub mod Write
mod Tests
