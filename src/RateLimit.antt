-- ===== src/RateLimit.antt =====
-- Rate limiting of requests: src/middleware/rate_limit.py with its settings in
-- src/config/rate_limit.py.
pub mod Settings
pub mod Window
pub mod Middleware
pub mod History
pub mod Served
pub mod Sorted
pub mod Calls
pub mod Dispatch
mod Tests
