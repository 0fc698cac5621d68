-- ===== src/RateLimit.antt =====
-- The limiters of app/core/rate_limit.py: the scripts on Redis, the window in the process, and the
-- calls that routes make.
pub mod Buckets
pub mod Local
pub mod Limits
pub mod Window
pub mod Retry
pub mod Cost
pub mod LocalWindow
pub mod Ceiling
mod Tests
