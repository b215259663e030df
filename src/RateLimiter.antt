-- ===== src/RateLimiter.antt =====
-- collector/core/rate_limiter.py: the token bucket, its adaptive and its authentication variant.
mod Tests
pub mod Clock
pub mod Bucket
pub mod Adaptive
pub mod AuthLimiter
